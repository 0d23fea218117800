-- ===== src/Base/Int.antt =====
-- Signed decimals, as what a text may stand for: `negsuc n` is -(n + 1).
use Prim.Native.Nat.{ℕ, zero, suc, ◌+◌}
use mathlib.Core.Option.{Option, none, some}

pub data ℤ : Type 0 where
  pos negsuc : ℕ → ℤ

-- The number, if it is above zero.
abbrev pub positive : ℤ → Option ℕ
positive (pos zero) = none
positive (pos (suc n)) = some (suc n)
positive (negsuc n) = none

-- The number, if it is not below zero.
abbrev pub non_negative : ℤ → Option ℕ
non_negative (pos n) = some n
non_negative (negsuc n) = none

abbrev pub magnitude : ℤ → ℕ
magnitude (pos n) = n
magnitude (negsuc n) = n + 1
