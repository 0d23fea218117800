-- ===== src/Funds/State.antt =====
-- The measures and the invariant of the wallet's tables.
use Prim.Native.String.{String}
use text.Mathlib.Text.{◌==◌ as same_text}
use tradedrift.Base.{
  ℕ, ◌+◌, ◌<◌, ◌≡◌, Bool, true, false, ◌&&◌, not, List, All, sum_of, if◌then◌else◌,
}
use tradedrift.Wallet.Tables.{
  Wallet, Reservation, ReservationStatus, active, partially_consumed, consumed, released,
  is_released,
}
use tradedrift.Wallet.Settle.{Wallets}
use tradedrift.Base.Swaps.{Unique}

-- The number, or nothing.
abbrev pub count : Bool → ℕ → ℕ
count b n = if b then n else 0

-- A choice of (user, asset) pairs.
abbrev pub Pairs : Type 0
Pairs = String → String → Bool

abbrev pub pair : String → String → Pairs
pair user asset u a = same_text u user && same_text a asset

abbrev pub of_asset : String → Pairs
of_asset asset u a = same_text a asset

-- The total, and the reserved, balances of the wallets of a choice.
abbrev pub owned : Pairs → List Wallet → ℕ
owned q ws = sum_of (λ w. count (q w.user_id w.asset) w.total_balance) ws

abbrev pub held : Pairs → List Wallet → ℕ
held q ws = sum_of (λ w. count (q w.user_id w.asset) w.reserved_balance) ws

-- What is left of the reservation, until it is released.
abbrev pub open_amount : Reservation → ℕ
open_amount r = count (not (is_released r.status)) r.remaining_amount

-- What the reservations of a choice still hold back.
abbrev pub promised : Pairs → List Reservation → ℕ
promised q rs = sum_of (λ r. count (q r.user_id r.asset) (open_amount r)) rs

abbrev pub IsBalanced : Wallet → Type 0
IsBalanced w = w.total_balance ≡ w.available_balance + w.reserved_balance

-- A status against the consumed and the remaining amount.
abbrev pub Agrees : ReservationStatus → ℕ → ℕ → Type 0
Agrees active c n = c ≡ 0
Agrees partially_consumed c n = 0 < n
Agrees consumed c n = n ≡ 0
Agrees released c n = Unit

abbrev pub IsSplit : Reservation → Type 0
IsSplit r =
    (r.reserved_amount ≡ r.consumed_amount + r.remaining_amount)
    × Agrees r.status r.consumed_amount r.remaining_amount

abbrev pub wallet_key : Wallet → String
wallet_key w = w.id

abbrev pub reservation_key : Reservation → String
reservation_key r = r.id

-- The tables are sound: ids are keys, every wallet's total is its available and reserved balance,
-- every reservation's amount is its consumed and remaining part and its status agrees with them, and
-- the reserved balances of every choice of wallets are what their open reservations hold back.
pub record SoundRows (ws : List Wallet) (rs : List Reservation) : Type 0 where
  pub wallet_ids : Unique wallet_key ws
  pub reservation_ids : Unique reservation_key rs
  pub balanced : All IsBalanced ws
  pub split : All IsSplit rs
  pub backed : (q : Pairs) → held q ws ≡ promised q rs

abbrev pub Sound : Wallets → Type 0
Sound db = SoundRows db.wallets db.reservations

-- The rows of an id are the wallet of a user and an asset.
abbrev pub Names : String → String → String → List Wallet → Type 0
Names id user asset ws =
    All (λ w. same_text w.id id ≡ true → (w.user_id ≡ user) × (w.asset ≡ asset)) ws

-- The rows of an id are an open reservation of a user and an asset.
abbrev pub Lives : String → String → String → List Reservation → Type 0
Lives id user asset rs =
    All
      (λ r.
        same_text r.id id ≡ true
        → (r.user_id ≡ user) × (r.asset ≡ asset) × (is_released r.status ≡ false))
      rs
