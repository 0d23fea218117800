-- ===== src/Wallet/Decimals.antt =====
-- The decimals of the requests: what the service reads off the library's decimal of a text
-- (reserve_funds.go: `decimalScale`; settle_trade_validate.go), and the amount that a column
-- DECIMAL(30,10) holds.
use tradedrift.Base.{
  ℕ, zero, suc, ◌+◌, ◌-◌, ◌*◌, ◌/◌, ◌^◌, Option, none, some, Bool, ◌==◌, if◌then◌else◌, ℤ, pos,
  negsuc, positive, ◌>>=◌,
}

-- A decimal of the library: `coefficient` times 10 to the power `exponent`.
pub record Decimal : Type 0 where
  pub coefficient : ℤ
  pub exponent : ℤ

-- A decimal text, by what `decimal.NewFromString` makes of it; `none` is an error.
abbrev pub Amount : Type 0
Amount = Option Decimal

-- A decimal above zero in plain notation: `digits` times 10 to the power -`places`.
pub record Plain : Type 0 where
  pub digits : ℕ
  pub places : ℕ

-- The places after the point; `none` is a positive exponent, which is scientific notation.
abbrev pub plain_places : ℤ → Option ℕ
plain_places (pos zero) = some 0
plain_places (pos (suc n)) = none
plain_places (negsuc n) = some (suc n)

-- The checks of an amount's text: it parses, is above zero and has no positive exponent.
unfoldable pub plain_amount : Amount → Option Plain
plain_amount text = do
  d ← text
  digits ← positive d.coefficient
  places ← plain_places d.exponent
  some (record { digits = digits; places = places })

-- `d.Equal(d.Truncate(places))`
unfoldable pub is_whole_at : Plain → ℕ → Bool
is_whole_at d places = d.digits / 10 ^ (d.places - places) * 10 ^ (d.places - places) == d.digits

-- The tries that are left, and the places to try next.
unfoldable pub scale_from : ℕ → ℕ → Plain → ℕ
scale_from zero places d = 11
scale_from (suc n) places d =
    let more = scale_from n (suc places) d in if is_whole_at d places then places else more

unfoldable pub decimal_scale : Plain → ℕ
decimal_scale d = scale_from 11 0 d

-- The units that a column DECIMAL(30,10) holds for the decimal, which rounds at ten places.
unfoldable pub column_units : Plain → ℕ
column_units d =
    (2 * (d.digits * 10 ^ (10 - d.places)) + 10 ^ (d.places - 10)) / (2 * 10 ^ (d.places - 10))

-- `Equal` of a stored amount and a decimal.
unfoldable pub same_amount : ℕ → Plain → Bool
same_amount units d = units * 10 ^ d.places == d.digits * 10 ^ 10

-- `d.Truncate(decimals)` of units of 10^-10.
unfoldable pub truncate_units : ℕ → ℕ → ℕ
truncate_units decimals units = units / 10 ^ (10 - decimals) * 10 ^ (10 - decimals)
