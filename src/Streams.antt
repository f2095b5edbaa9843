-- ===== src/Streams.antt =====
-- domain/streams.py: interests, events and requests of the quote streams.
pub mod Manager
pub mod Steps
pub mod Queues
pub mod Orderly
pub mod Fanout
pub mod Failed
pub mod Router
use signapse_mdg.Base.{
  ℕ, Bool, true, false, ◌&&◌, Option, none, some, List, [], ◌∷◌, String, string_eq, Eq, ◌==◌, Error,
  stream_request, quote_request, Result, ok, err,
}
use signapse_mdg.Quotes.{Quote}
use signapse_mdg.Quotes.Service.{parse_symbols}

pub data StreamState : Type 0 where
  connecting subscribed stale reconnecting errored : StreamState

abbrev pub state_beq : StreamState → StreamState → Bool
state_beq connecting connecting = true
state_beq subscribed subscribed = true
state_beq stale stale = true
state_beq reconnecting reconnecting = true
state_beq errored errored = true
state_beq a b = false

-- The channel is always "quote", and left out.
pub record QuoteInterest : Type 0 where
  pub symbol : String
  pub provider : Option String
  pub provider_symbol : Option String

-- `_optional_equal`
abbrev pub optional_equal : Option String → Option String → Bool
optional_equal none right = true
optional_equal (some left) none = true
optional_equal (some left) (some right) = left == right

-- `QuoteInterest.__eq__`: what is not given equals anything.
abbrev pub interest_beq : QuoteInterest → QuoteInterest → Bool
interest_beq a b =
    a.symbol == b.symbol
    && (optional_equal a.provider b.provider && optional_equal a.provider_symbol b.provider_symbol)

instance abbrev pub interest_eq : Eq QuoteInterest
interest_eq = record { beq = interest_beq }

-- `StreamQuote.interest`
abbrev pub interest_of : Quote → QuoteInterest
interest_of quote = record {
  symbol = quote.symbol;
  provider = some quote.provider;
  provider_symbol = some quote.provider_symbol;
}

-- What a provider signals besides quotes: that it reconnects, or that it failed.
pub record ProviderSignal : Type 0 where
  pub failed : Bool
  pub interests : List QuoteInterest
  pub observed_at : ℕ
  pub code : String
  pub message : String

pub record StatusEvent : Type 0 where
  pub state : StreamState
  pub symbols : List String
  pub observed_at : ℕ
  pub code : Option String
  pub message : Option String

pub data DownstreamEvent : Type 0 where
  quote_event : Quote → DownstreamEvent
  status_event : StatusEvent → DownstreamEvent

pub record StreamRequest : Type 0 where
  pub symbols : List String
  pub provider : Option String

-- `getattr(exc, "code", "INVALID_SYMBOLS")`
abbrev code_of : Error → String
code_of (quote_request code) = code
code_of e = "INVALID_SYMBOLS"

abbrev stream_symbols : Option String → Result (List String) → Result StreamRequest
stream_symbols provider (ok symbols) = ok (record { symbols = symbols; provider = provider })
stream_symbols provider (err e) = err (stream_request (code_of e))

-- `parse_stream_request` of services/stream_manager.py
unfoldable pub parse_stream_request :
    Option String → Option String → ℕ → Option String → Result StreamRequest
unfolding parse_symbols
parse_stream_request raw_symbols none max_symbols provider =
    stream_symbols provider (parse_symbols raw_symbols max_symbols)
parse_stream_request raw_symbols (some raw_timeframe) max_symbols provider =
    err (stream_request "TIMEFRAME_NOT_ALLOWED")
