-- ===== src/Lib.antt =====
-- Signapse Market Data Gateway, a service in Python (app/) that answers requests for candles, quotes
-- and streams of prices from a database, a cache and several third-party providers.
--
-- The parts, and the file for each:
--   Base       shared types: results and errors (app/domain/errors.py), dicts, lists, equality, strings.
--   Time       instants, the civil calendar that `datetime` has, and app/domain/timeframes.py.
--   Schedule   app/domain/candle_schedules.py: which candles are expected, and which are missing.
--   Symbols    app/domain/symbols.py; Selection is app/services/provider_selection.py.
--   Sessions   app/domain/market_sessions.py: when a market trades.
--   Candles    app/domain/candles.py; CandleCache is app/cache/candle_cache.py.
--   Gateway    the repository and provider as the candle services use them.
--   CandleService  app/services/candles.py: reads what is stored, fetches what is missing, stores it,
--              and merges both with the candle that is still forming.
--   CandleCount  app/services/candle_count.py: requests for a number of candles, page by page.
--   Requests   the parsing of candle requests in app/services/candles.py.
--   Quotes     app/domain/quotes.py, app/cache/quote_cache.py; Quotes/Service is app/services/quotes.py.
--   CandleApi  `get_candles` of app/services/candles.py as a whole, with the dispatch to CandleCount.
--   HistoricalPrices  app/services/historical_prices.py over an interface to the candle service, which
--              HistoricalPrices/Wired fills.
--   Routers    app/services/quote_provider_router.py and candle_provider_router.py.
--   Keys       app/providers/twelvedata_keys.py; Normalization is app/providers/normalization.py.
--   Binance    app/providers/binance_spot.py: what becomes of the answers of Binance.
--   TwelveData app/providers/twelvedata_market_data.py: the retry with another key, and what becomes of
--              the answers of Twelve Data; TwelveData/Series has its candles,
--              TwelveData/Client sorts its responses, TwelveData/Build makes the pool of keys.
--   Cronjobs   app/core/cronjob.py: the manager, and the runs of a job as steps of numbered tasks.
--   Streams    app/domain/streams.py; Streams/Manager is app/services/stream_manager.py, with every
--              operation a step of Streams/Steps, and Streams/Router is
--              app/services/stream_provider_router.py.
--   Backfill   app/backfill_candles.py: the chunks of a range, and the run over them.
--   Database   the symbols and candles of app/db/repositories.py, as tables of rows.
--   EconomicCalendar  app/domain/economic_calendar.py and the parsing of app/services/economic_calendar.py;
--              EconomicCalendar/Store is its table in app/db/repositories.py, EconomicCalendar/Refresh
--              app/services/economic_calendar_refresh.py.
--   Tests      runs at concrete inputs.
--
-- Functions keep their names, without a leading underscore. Methods that change a cache return the new
-- one; the candle service runs in `Exec`, which passes the tables, the cache and the calls of the
-- provider along and keeps them when code raises. An asynchronous method is one step after another; what
-- other tasks may do between two looks at the quote cache is a parameter.
--
-- An aware datetime is the number of microseconds since 0001-01-01T00:00:00 UTC, and a timedelta a number
-- of microseconds. Sums that leave the range of `datetime` raise, as in Python. Divisions of durations
-- are exact where the source divides floats. Loops have fuel: one unit for each microsecond up to the end
-- or to the greatest datetime, of which each round takes at least one, or 120000 months.
-- The loop over pages has two units more than the scan budget, of which each page scans an open at least.
--
-- Parameters: the repository, the providers, the clock's readings, the settings, what `int` and
-- `datetime.fromisoformat` accept, the wall clock of New York and the exchange calendars. The wall clock
-- is total, and the day before 0001-01-01 is that day.
--
-- Whether a market is open at an instant is taken to have an answer: that `is_eligible` raises where a change
-- of time zone or of date leaves the range of `datetime`, or where pandas cannot represent a date, is left out
-- of every schedule that asks it. A policy that is always open raises nothing. An unsubscription that raises
-- ends a registration that is being undone; in a cleanup it ends only the cleanup's own task.
--
-- A statement of SQL is the rows that it reads or writes: WHERE and ON CONFLICT row by row, the order of
-- texts by their code points, a unique constraint as the key of a dict. Whether the database raises is a
-- field of the tables. What `Decimal`, `str.upper` and `datetime.fromtimestamp` give, and the answers of
-- clients of third parties, are parameters too.
-- The loop over the chunks of a backfill has a unit of fuel for each microsecond of its range; with no
-- candle to a chunk it would not end, and runs out.
--
-- Not modelled: locks, which only order calls; log lines and metrics; messages of errors; the HTTP
-- session of Twelve Data, the adapters of Yahoo Finance, the calendar site and the streams of
-- providers, HTTP routes, the command line and the settings, which are third-party calls and
-- wiring.
pub mod Base
pub mod Time
pub mod Schedule
pub mod Symbols
pub mod Sessions
pub mod Selection
pub mod Candles
pub mod CandleCache
pub mod Gateway
pub mod CandleService
pub mod Keys
pub mod Routers
pub mod CandleApi
pub mod HistoricalPrices
pub mod Cronjobs
pub mod Streams
pub mod Backfill
pub mod Database
pub mod EconomicCalendar
pub mod Normalization
pub mod Binance
pub mod TwelveData
pub mod Tests
pub mod CandleCount
pub mod Quotes
pub mod Requests
