-- ===== src/Normalization.antt =====
-- providers/normalization.py. What `Decimal` makes of a text is a parameter.
use signapse_mdg.Base.{
  ℕ, suc, ◌+◌, ◌-◌, ◌*◌, ◌^◌, Bool, true, false, not, ◌&&◌, ◌||◌, Option, none, some, String, ltb,
  if◌then◌else◌,
}
use signapse_mdg.Time.Timeframe.{ℤ, pos, negsuc}
use signapse_mdg.Candles.{Decimal}

-- A Python value in a provider's answer; a number, of type int or float, with its `str`, a Decimal with its.
pub data RawValue : Type 0 where
  raw_bool : Bool → RawValue
  raw_text : String → RawValue
  raw_number : String → RawValue
  raw_decimal : String → RawValue
  raw_other : RawValue

-- What `Decimal(text)` gives: none where it raises InvalidOperation, and of what is not finite only that.
pub data DecimalText : Type 0 where
  finite : Decimal → DecimalText
  not_finite : DecimalText

abbrev pub DecimalParser : Type 0
DecimalParser = String → Option DecimalText

abbrev pub is_negative : Decimal → Bool
is_negative d = elim d.coefficient [ pos n ↦ false | negsuc n ↦ true ]

abbrev pub is_zero : Decimal → Bool
is_zero d = elim d.coefficient [ pos n ↦ not (ltb 0 n) | negsuc n ↦ false ]

-- The text that `Decimal` is given, where the value's type is allowed.
abbrev allowed_text : Bool → Bool → RawValue → Option String
allowed_text numbers decimals (raw_bool b) = none
allowed_text numbers decimals (raw_text s) = some s
allowed_text numbers decimals (raw_number s) = if numbers then some s else none
allowed_text numbers decimals (raw_decimal s) = if decimals then some s else none
allowed_text numbers decimals raw_other = none

abbrev in_bounds : Bool → Option DecimalText → Option Decimal
in_bounds positive none = none
in_bounds positive (some not_finite) = none
in_bounds positive (some (finite d)) =
    if is_negative d || (positive && (is_negative d || is_zero d)) then none else some d

abbrev parsed_text : DecimalParser → Bool → Option String → Option Decimal
parsed_text decimal positive none = none
parsed_text decimal positive (some s) = in_bounds positive (decimal s)

unfoldable pub parse_decimal : DecimalParser → Bool → Bool → Bool → RawValue → Option Decimal
parse_decimal decimal positive allow_numbers allow_decimal value =
    parsed_text decimal positive (allowed_text allow_numbers allow_decimal value)

abbrev magnitude : ℤ → ℕ
magnitude (pos n) = n
magnitude (negsuc n) = suc n

-- By how much the one exponent is above the other; 0 where it is below.
abbrev exponent_above : ℤ → ℤ → ℕ
exponent_above (pos m) (pos n) = m - n
exponent_above (pos m) (negsuc n) = m + suc n
exponent_above (negsuc m) (pos n) = 0
exponent_above (negsuc m) (negsuc n) = n - m

-- `a < b`, of decimals that are not below 0.
unfoldable pub decimal_ltb : Decimal → Decimal → Bool
decimal_ltb a b =
    ltb (magnitude a.coefficient * 10 ^ exponent_above a.exponent b.exponent)
      (magnitude b.coefficient * 10 ^ exponent_above b.exponent a.exponent)
