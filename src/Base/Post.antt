-- ===== src/Base/Post.antt =====
-- What holds of the value that a step of a transaction gives, if it gives one, and how it passes
-- through the steps of a `do` block.
use tradedrift.Base.{◌≡◌, refl, subst, Bool, true, false, Option, none, some, if◌then◌else◌}
use tradedrift.Base.Outcomes.{Outcome, ok, failed, ◌>>=◌, ◌>>◌, check, require}

abbrev pub Post : {E A : Type 0} → (A → Type 0) → Outcome E A → Type 0
Post Q (ok a) = Q a
Post Q (failed e) = Unit

pub ok_same : {E A : Type 0} {a b : A} → ◌≡◌ {A = Outcome E A} (ok a) (ok b) → a ≡ b
ok_same h = cc

module _ {E A : Type 0} (Q : A → Type 0) where
  pub Post-ok : (m : Outcome E A) → ((a : A) → m ≡ ok a → Q a) → Post Q m
  Post-ok (ok a) f = f a refl
  Post-ok (failed e) f = tt

  pub Post-get : (m : Outcome E A) {a : A} → Post Q m → m ≡ ok a → Q a
  Post-get (ok a) h e = subst Q (ok_same e) h
  Post-get (failed x) h e = cc

  pub Post-bind :
      {B : Type 0} (m : Outcome E B) (k : B → Outcome E A)
      → ((b : B) → m ≡ ok b → Post Q (k b))
      → Post Q (m >>= k)
  unfolding ◌>>=◌
  Post-bind (ok b) k f = f b refl
  Post-bind (failed e) k f = tt

  pub Post-require :
      {B : Type 0} (o : Option B) (e : E) (k : B → Outcome E A)
      → ((b : B) → o ≡ some b → Post Q (k b))
      → Post Q (require o e >>= k)
  unfolding ◌>>=◌ require
  Post-require none e k f = tt
  Post-require (some b) e k f = f b refl

  pub Post-then :
      (m : Outcome E (Unit {0})) (k : Outcome E A) → (m ≡ ok tt → Post Q k) → Post Q (m >> k)
  unfolding ◌>>◌
  Post-then (ok tt) k f = f refl
  Post-then (failed e) k f = tt

  pub Post-check :
      (b : Bool) (e : E) (k : Outcome E A) → (b ≡ true → Post Q k) → Post Q (check b e >> k)
  unfolding ◌>>◌ check
  Post-check true e k f = f refl
  Post-check false e k f = tt

  -- A step with a postcondition of its own.
  pub Post-step :
      {B : Type 0} (R : B → Type 0) (m : Outcome E B) (k : B → Outcome E A)
      → Post R m
      → ((b : B) → R b → Post Q (k b))
      → Post Q (m >>= k)
  unfolding ◌>>=◌
  Post-step R (ok b) k r f = f b r
  Post-step R (failed e) k r f = tt

  -- A statement, and what follows it.
  pub Post-update :
      {B C : Type 0} (o : Option B) (e : E) (f : B → C) (k : C → Outcome E A)
      → ((b : B) → o ≡ some b → Post Q (k (f b)))
      → Post Q ((require o e >>= λ b. ok (f b)) >>= k)
  unfolding ◌>>=◌ require
  Post-update none e f k g = tt
  Post-update (some b) e f k g = g b refl

  pub Post-map : (R : A → Type 0) (m : Outcome E A) → ((a : A) → R a → Q a) → Post R m → Post Q m
  Post-map R (ok a) f h = f a h
  Post-map R (failed e) f h = tt

  pub Post-both : (R : A → Type 0) (m : Outcome E A) → Post Q m → Post R m → Post (λ a. Q a × R a) m
  Post-both R (ok a) q r = (q, r)
  Post-both R (failed e) q r = tt

  pub Post-if : (b : Bool) (x y : Outcome E A) → Post Q x → Post Q y → Post Q (if b then x else y)
  Post-if true x y hx hy = hx
  Post-if false x y hx hy = hy

  pub Post-choose :
      (b : Bool) (x y : Outcome E A)
      → (b ≡ true → Post Q x)
      → (b ≡ false → Post Q y)
      → Post Q (if b then x else y)
  Post-choose true x y hx hy = hx refl
  Post-choose false x y hx hy = hy refl

-- Two checks that both pass.
pub both_pass :
    {E : Type 0} (m k : Outcome E (Unit {0})) → (m >> k) ≡ ok tt → (m ≡ ok tt) × (k ≡ ok tt)
unfolding ◌>>◌
both_pass (ok tt) k h = (refl, h)
both_pass (failed e) k h = cc

pub check-true : {E : Type 0} (b : Bool) (e : E) → check b e ≡ ok tt → b ≡ true
unfolding check
check-true true e h = refl
check-true false e h = cc
