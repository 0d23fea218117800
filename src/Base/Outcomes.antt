-- ===== src/Base/Outcomes.antt =====
-- Steps of a database transaction that may fail, chained by `do`.
use mathlib.Core.Bool.{Bool, true, false}
use mathlib.Core.Option.{Option, none, some}

-- What a step of a transaction gives: a value, or an error, on which the deferred Rollback leaves
-- the tables as they were before the transaction.
pub data Outcome {ℓ} (E : Type 0) (A : Type ℓ) : Type ℓ where
  ok : A → Outcome E A
  failed : E → Outcome E A

infixl 5 ◌>>=◌ ◌>>◌
unfoldable pub ◌>>=◌ {ℓ κ} :
    {E : Type 0} {A : Type ℓ} {B : Type κ} → Outcome E A → (A → Outcome E B) → Outcome E B
ok a >>= f = f a
failed e >>= f = failed e

unfoldable pub ◌>>◌ {ℓ} :
    {E : Type 0} {B : Type ℓ} → Outcome E (Unit {0}) → Outcome E B → Outcome E B
ok _ >> k = k
failed e >> k = failed e

unfoldable pub check : {E : Type 0} → Bool → E → Outcome E (Unit {0})
check true e = ok tt
check false e = failed e

unfoldable pub require {ℓ} : {E : Type 0} {A : Type ℓ} → Option A → E → Outcome E A
require none e = failed e
require (some a) e = ok a
