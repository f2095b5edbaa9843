-- ===== src/Candles.antt =====
-- domain/candles.py
pub mod Merge
use signapse_mdg.Base.{ℕ, Bool, Option, List, String}
use signapse_mdg.Time.Timeframe.{ℤ}

-- A finite `decimal.Decimal`: `coefficient * 10 ^ exponent`.
pub record Decimal : Type 0 where
  pub coefficient : ℤ
  pub exponent : ℤ

pub record Candle : Type 0 where
  pub symbol : String
  pub asset_class : String
  pub provider : String
  pub provider_symbol : String
  pub timeframe : String
  pub open_time : ℕ
  pub close_time : ℕ
  pub opening : Decimal
  pub high : Decimal
  pub low : Decimal
  pub close : Decimal
  pub volume : Decimal
  pub complete : Bool

pub data CountDirection : Type 0 where
  forward backward : CountDirection

pub record CandleRequest : Type 0 where
  pub symbol : String
  pub timeframe : String
  pub start : ℕ
  pub end : ℕ
  pub limit : Option ℕ
  pub count_direction : Option CountDirection
  pub provider : Option String
  pub count : Option ℕ

pub record CandleResult : Type 0 where
  pub symbol : String
  pub timeframe : String
  pub start : ℕ
  pub end : ℕ
  pub candles : List Candle
  pub price_display_decimals : ℕ
