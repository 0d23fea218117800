-- ===== src/Base/Maps.antt =====
-- A Go map, as the function from its keys to what is stored under them.
use Prim.Native.Nat.{ℕ}
use mathlib.Core.Path.{◌≡◌}
use mathlib.Core.Logic.{◌≢◌}
use mathlib.Core.Option.{Option, none}
use native.Mathlib.Omega.{arith}
use tradedrift.Base.Tests.{◌==◌, if◌then◌else◌}

module _ {ℓ} {V : Type ℓ} where
  -- `make(map[K]V)`
  abbrev pub empty_map : ℕ → Option V
  empty_map k = none

  -- `m[k] = v`, and `delete(m, k)` at `none`.
  abbrev pub update : (ℕ → Option V) → ℕ → Option V → ℕ → Option V
  update m k v j = if j == k then v else m j

  pub update_self : (m : ℕ → Option V) (k : ℕ) (v : Option V) → update m k v k ≡ v
  update_self m k v = ground arith

  pub update_ne : (m : ℕ → Option V) (k : ℕ) (v : Option V) (j : ℕ) → j ≢ k → update m k v j ≡ m j
  update_ne m k v j h = ground arith
