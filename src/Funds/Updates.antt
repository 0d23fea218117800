-- ===== src/Funds/Updates.antt =====
-- UPDATEs of a table that keep the row a query finds, and statements that may refuse.
use Prim.Native.String.{String}
use text.Mathlib.Text.{◌==◌ as same_text}
use tradedrift.Base.{
  ◌≡◌, refl, sym, subst, ap, Option, some, none, Bool, true, false, ◌&&◌, ◌||◌, List, [], ◌∷◌, ◌++◌,
  All, Bool-cases, inl, inr, any_row, first_row, set_rows, update_rows, if◌then◌else◌,
}
use tradedrift.Base.Swaps.{Unique}

-- The rows after a statement; its error leaves them as they are.
abbrev pub after : {A : Type 0} → Option A → A → A
after none rows = rows
after (some new) rows = new

pub and_false : (a b : Bool) → b ≡ false → (a && b) ≡ false
and_false true b h = h
and_false false b h = refl

module _ {A : Type 0} (p : A → Bool) (f : A → A) where
  same_row :
      {B : Type 0} (q : A → B) (a : A)
      → ((a : A) → q (f a) ≡ q a)
      → q (if p a then f a else a) ≡ q a
  same_row q a same = elim (Bool-cases (p a)) [ inl t ↦ rw t (same a) | inr e ↦ rw e refl ]

  pub found_step :
      (b c : Bool) (y z : A) (rest others : Option A) {x : A}
      → c ≡ b
      → (y ≡ x → z ≡ x)
      → (rest ≡ some x → others ≡ some x)
      → (if b then some y else rest) ≡ some x
      → (if c then some z else others) ≡ some x
  found_step true true y z rest others s here later e = ap (λ a. some a) (here cc)
  found_step true false y z rest others s here later e = cc
  found_step false true y z rest others s here later e = cc
  found_step false false y z rest others s here later e = later e

  -- An update that keeps a query's condition and does not meet the row that the query finds.
  pub first_row-set_rows :
      (q : A → Bool) (xs : List A) {x : A}
      → ((a : A) → q (f a) ≡ q a)
      → first_row q xs ≡ some x
      → p x ≡ false
      → first_row q (set_rows p f xs) ≡ some x
  first_row-set_rows q [] same e h = cc
  first_row-set_rows q (y ∷ ys) {x} same e h =
      found_step (q y) (q (if p y then f y else y)) y (if p y then f y else y) (first_row q ys)
        (first_row q (set_rows p f ys)) (same_row q y same)
        (λ s. subst (λ z. (if p z then f z else z) ≡ x) (sym s) (rw h refl))
        (λ later. first_row-set_rows q ys same later h) e

  All-set_rows :
      (Q : A → Type 0) (xs : List A)
      → ((a : A) → Q a → Q (f a))
      → All Q xs
      → All Q (set_rows p f xs)
  All-set_rows Q [] step h = tt
  All-set_rows Q (x ∷ xs) step h = elim (Bool-cases (p x)) [
    | inl t ↦ rw t (step x h.0, All-set_rows Q xs step h.1)
    | inr e ↦ rw e (h.0, All-set_rows Q xs step h.1)
  ]

  pub Unique-set_rows :
      (key : A → String) (xs : List A)
      → ((a : A) → key (f a) ≡ key a)
      → Unique key xs
      → Unique key (set_rows p f xs)
  Unique-set_rows key [] same u = tt
  Unique-set_rows key (x ∷ xs) same u = (
    subst (λ k. All (λ y. same_text (key y) k ≡ false) (set_rows p f xs))
        (sym (same_row key x same))
        (All-set_rows (λ y. same_text (key y) (key x) ≡ false) xs
          (λ a h. subst (λ k. same_text k (key x) ≡ false) (sym (same a)) h) u.0),
    Unique-set_rows key xs same u.1,
  )

after_choice :
    {A : Type 0} (Q : A → Type 0) (b : Bool) (old new : A)
    → Q old
    → Q new
    → Q (after (if b then some new else none) old)
after_choice Q true old new h k = k
after_choice Q false old new h k = h

pub after_update :
    {A : Type 0} (Q : List A → Type 0) (p : A → Bool) (f : A → A) (xs : List A)
    → Q xs
    → Q (set_rows p f xs)
    → Q (after (update_rows p f xs) xs)
unfolding update_rows
after_update Q p f xs h k = after_choice Q (any_row p xs) xs (set_rows p f xs) h k

-- The same for a statement whose error comes first.
pub after_refusal :
    {A : Type 0} (Q : A → Type 0) (b : Bool) (old new : A)
    → Q old
    → Q new
    → Q (after (if b then none else some new) old)
after_refusal Q true old new h k = h
after_refusal Q false old new h k = k

pub first_row-append :
    {A : Type 0} (q : A → Bool) (xs ys : List A) {x : A}
    → first_row q xs ≡ some x
    → first_row q (xs ++ ys) ≡ some x
first_row-append q [] ys e = cc
first_row-append q (y ∷ xs) ys e =
    found_step (λ _. true) (λ a. a) (q y) (q y) y y _ _ refl (λ s. s) (first_row-append q xs ys) e

module _ {A : Type 0} (q p : A → Bool) where
  any_step : (b c d : Bool) → (b ≡ true → c ≡ true) → (b ≡ false → d ≡ true) → (c || d) ≡ true
  any_step true c d h k = rw (h refl) refl
  any_step false true d h k = refl
  any_step false false d h k = k refl

  found_head :
      (b : Bool) (y : A) (rest : Option A) {x : A}
      → (if b then some y else rest) ≡ some x
      → b ≡ true
      → y ≡ x
  found_head true y rest e t = cc
  found_head false y rest e t = cc

  found_tail :
      (b : Bool) (y : A) (rest : Option A) {x : A}
      → (if b then some y else rest) ≡ some x
      → b ≡ false
      → rest ≡ some x
  found_tail true y rest e t = cc
  found_tail false y rest e t = e

  found-any_row : (xs : List A) (x : A) → first_row q xs ≡ some x → p x ≡ true → any_row p xs ≡ true
  found-any_row [] x e h = cc
  found-any_row (y ∷ ys) x e h =
      any_step (q y) (p y) (any_row p ys)
        (λ t. subst (λ z. p z ≡ true) (sym (found_head (q y) y (first_row q ys) e t)) h)
        (λ n. found-any_row ys x (found_tail (q y) y (first_row q ys) e n) h)

  -- An UPDATE whose condition the found row meets affects a row.
  pub update_rows_found :
      (f : A → A) (xs : List A) (x : A)
      → first_row q xs ≡ some x
      → p x ≡ true
      → (new : List A) × (update_rows p f xs ≡ some new)
  unfolding update_rows
  update_rows_found f xs x e h = (set_rows p f xs, rw (found-any_row xs x e h) refl)
