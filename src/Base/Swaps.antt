-- ===== src/Base/Swaps.antt =====
-- An update of the rows of one key in a table whose keys are unique: it swaps one row.
use Prim.Native.String.{String}
use text.Mathlib.Text.{◌==◌ as same_text}
use text.Mathlib.TextEquality.{eq_iff}
use text.Mathlib.TextPositions.{eq_refl}
use tradedrift.Base.{
  ℕ, ◌+◌, ◌≡◌, refl, Bool, true, false, ◌||◌, List, [], ◌∷◌, ◌++◌, Option, none, some, arith, All,
  first_row, any_row, set_rows, update_rows, sum_of, if◌then◌else◌, Bool-cases, inl, inr, ◌⊎◌, ap,
  sym, subst, All-append, All-map,
}

-- `Swaps x y xs ys`: `ys` is `xs` with one row `x` replaced by `y`.
pub data Swaps {A : Type 0} (x y : A) : List A → List A → Type 0 where
  here : {xs : List A} → Swaps x y (x ∷ xs) (y ∷ xs)
  there : {z : A} {xs ys : List A} → Swaps x y xs ys → Swaps x y (z ∷ xs) (z ∷ ys)

or_true_right : (b c : Bool) → c ≡ true → (b || c) ≡ true
or_true_right true c h = refl
or_true_right false c h = h

-- `b || c` split at its first test.
or_right : (b c : Bool) → (b || c) ≡ true → b ≡ false → c ≡ true
or_right b c h f = cc

pub or_none_left : (b c : Bool) → (b || c) ≡ false → b ≡ false
or_none_left true c h = cc
or_none_left false c h = refl

pub or_none_right : (b c : Bool) → (b || c) ≡ false → c ≡ false
or_none_right true c h = cc
or_none_right false c h = h

module _ {A : Type 0} where
  pub Swaps-sum_of :
      (m : A → ℕ) {x y : A} {xs ys : List A}
      → Swaps x y xs ys
      → sum_of m ys + m x ≡ sum_of m xs + m y
  Swaps-sum_of m here = omega arith
  Swaps-sum_of m (there s) = omega (arith, Swaps-sum_of m s)

  pub Swaps-All_old : (P : A → Type 0) {x y : A} {xs ys : List A} → Swaps x y xs ys → All P xs → P x
  Swaps-All_old P here h = h.0
  Swaps-All_old P (there s) h = Swaps-All_old P s h.1

  pub Swaps-All :
      (P : A → Type 0) {x y : A} {xs ys : List A} → Swaps x y xs ys → P y → All P xs → All P ys
  Swaps-All P here p h = (p, h.1)
  Swaps-All P (there s) p h = (h.0, Swaps-All P s p h.1)

  -- What a query's answer tells of its first row.
  first_row_step :
      (b : Bool) (y : A) {x : A} (rest : Option A)
      → (if b then some y else rest) ≡ some x
      → ((b ≡ true) × (y ≡ x)) ⊎ (rest ≡ some x)
  first_row_step true y rest e = inl (refl, cc)
  first_row_step false y rest e = inr e

  pub first_row-All :
      (P : A → Type 0) (p : A → Bool) (xs : List A) {x : A}
      → first_row p xs ≡ some x
      → All P xs
      → P x
  first_row-All P p [] e h = cc
  first_row-All P p (y ∷ ys) e h = elim (first_row_step (p y) y (first_row p ys) e) [
    | inl (_, same) ↦ subst P same h.0
    | inr later ↦ first_row-All P p ys later h.1
  ]

  pub first_row-true : (p : A → Bool) (xs : List A) {x : A} → first_row p xs ≡ some x → p x ≡ true
  first_row-true p [] e = cc
  first_row-true p (y ∷ ys) e = elim (first_row_step (p y) y (first_row p ys) e) [
    | inl (t, same) ↦ subst (λ a. p a ≡ true) same t
    | inr later ↦ first_row-true p ys later
  ]

  -- A condition that no row meets.
  pub any_row_none : (p : A → Bool) (xs : List A) → any_row p xs ≡ false → All (λ x. p x ≡ false) xs
  any_row_none p [] h = tt
  any_row_none p (x ∷ xs) h = (
    or_none_left (p x) (any_row p xs) h,
    any_row_none p xs (or_none_right (p x) (any_row p xs) h),
  )

  pub any_row-append :
      (p : A → Bool) (xs : List A) (x : A) → p x ≡ true → any_row p (xs ++ (x ∷ [])) ≡ true
  any_row-append p [] x h = rw h refl
  any_row-append p (y ∷ ys) x h = or_true_right (p y) _ (any_row-append p ys x h)

  pub any_row-append_left :
      (p : A → Bool) (xs : List A) (x : A) → any_row p xs ≡ true → any_row p (xs ++ (x ∷ [])) ≡ true
  any_row-append_left p [] x h = cc
  any_row-append_left p (y ∷ ys) x h = elim (Bool-cases (p y)) [
    | inl t ↦ rw t refl
    | inr n ↦ or_true_right (p y) _ (any_row-append_left p ys x (or_right (p y) (any_row p ys) h n))
  ]

  pub sum_of-append :
      (m : A → ℕ) (xs : List A) (x : A) → sum_of m (xs ++ (x ∷ [])) ≡ sum_of m xs + m x
  sum_of-append m [] x = omega arith
  sum_of-append m (y ∷ ys) x = omega (arith, sum_of-append m ys x)

-- The table after an UPDATE that affected a row.
updated :
    {A : Type 0} (b : Bool) (xs : List A) {ys : List A}
    → (if b then some xs else none) ≡ some ys
    → xs ≡ ys
updated true xs h = cc
updated false xs h = cc

apart : (s t : String) → same_text s t ≡ false → same_text t s ≡ false
apart s t h = elim (Bool-cases (same_text t s)) [
  | inl e ↦ cc (subst (λ u. same_text s u ≡ true) (sym ((eq_iff t s).0 e)) (eq_refl s))
  | inr e ↦ e
]

module _ {A : Type 0} (key : A → String) where
  -- No two rows have the same key.
  abbrev pub Unique : List A → Type 0
  Unique [] = Unit
  Unique (x ∷ xs) = All (λ y. same_text (key y) (key x) ≡ false) xs × Unique xs

  module _ (p : A → Bool) (f : A → A) (k : String)
      (only : (a : A) → p a ≡ true → same_text (key a) k ≡ true) where
    set_rows_quiet :
        (xs : List A) → All (λ y. same_text (key y) k ≡ false) xs → set_rows p f xs ≡ xs
    set_rows_quiet [] h = refl
    set_rows_quiet (x ∷ xs) h = elim (Bool-cases (p x)) [
      | inl t ↦ cc (only x t, h.0)
      | inr e ↦ rw e (ap (λ ys. x ∷ ys) (set_rows_quiet xs h.1))
    ]

    set_rows-Swaps :
        (xs : List A)
        → Unique xs
        → any_row p xs ≡ true
        → (x : A) × Swaps x (f x) xs (set_rows p f xs) × (p x ≡ true)
    set_rows-Swaps [] u h = cc
    set_rows-Swaps (x ∷ xs) u h = elim (Bool-cases (p x)) [
      | inl t ↦
          let same = (eq_iff (key x) k).0 (only x t) in
          let quiet =
            set_rows_quiet xs (subst (λ j. All (λ y. same_text (key y) j ≡ false) xs) same u.0) in
          (
            x,
            subst (Swaps x (f x) (x ∷ xs))
                (ap (λ b. (if b then f x else x) ∷ set_rows p f xs) (sym t))
                (subst (λ zs. Swaps x (f x) (x ∷ xs) (f x ∷ zs)) (sym quiet) here),
            t,
          )
      | inr e ↦
          let (y, swaps, t) = set_rows-Swaps xs u.1 (or_right (p x) (any_row p xs) h e) in
          (y, rw e (there swaps), t)
    ]

    -- An UPDATE that affects a row swaps one row, which meets its condition.
    pub update_rows-Swaps :
        (xs ys : List A)
        → Unique xs
        → update_rows p f xs ≡ some ys
        → (x : A) × Swaps x (f x) xs ys × (p x ≡ true)
    unfolding update_rows
    update_rows-Swaps xs ys u h = elim (Bool-cases (any_row p xs)) [
      | inl t ↦
          let (x, swaps, q) = set_rows-Swaps xs u t in
          (x, subst (Swaps x (f x) xs) (updated (any_row p xs) (set_rows p f xs) h) swaps, q)
      | inr e ↦ cc
    ]

  Unique-Swaps_apart :
      {x y : A} {xs ys : List A} (k : String)
      → key y ≡ key x
      → Swaps x y xs ys
      → All (λ z. same_text (key z) k ≡ false) xs
      → All (λ z. same_text (key z) k ≡ false) ys
  Unique-Swaps_apart k e here h = (subst (λ j. same_text j k ≡ false) (sym e) h.0, h.1)
  Unique-Swaps_apart k e (there s) h = (h.0, Unique-Swaps_apart k e s h.1)

  pub Unique-Swaps :
      {x y : A} {xs ys : List A} → key y ≡ key x → Swaps x y xs ys → Unique xs → Unique ys
  Unique-Swaps {xs = x ∷ xs} e here u =
      (subst (λ j. All (λ z. same_text (key z) j ≡ false) xs) (sym e) u.0, u.1)
  Unique-Swaps e (there {z = z} s) u = (Unique-Swaps_apart (key z) e s u.0, Unique-Swaps e s u.1)

  -- A row of a new key at the end.
  pub Unique-append :
      (x : A) (xs : List A)
      → Unique xs
      → All (λ y. same_text (key y) (key x) ≡ false) xs
      → Unique (xs ++ (x ∷ []))
  Unique-append x [] u h = (tt, tt)
  Unique-append x (y ∷ ys) u h = (
    All-append (λ z. same_text (key z) (key y) ≡ false) ys (x ∷ []) u.0
        (apart (key y) (key x) h.0, tt),
    Unique-append x ys u.1 h.1,
  )

  -- All rows of a key are the one that a query finds.
  pub first_row-Only :
      (P : A → Type 0) (p : A → Bool) (xs : List A) {x : A}
      → Unique xs
      → first_row p xs ≡ some x
      → P x
      → All (λ y. same_text (key y) (key x) ≡ true → P y) xs
  first_row-Only P p [] u e px = cc
  first_row-Only P p (y ∷ ys) {x} u e px = elim (first_row_step (p y) y (first_row p ys) e) [
    | inl (_, same) ↦ (
      λ _. subst P (sym same) px,
      All-map (λ z. same_text (key z) (key y) ≡ false) (λ z. same_text (key z) (key x) ≡ true → P z)
          ys (λ z n t. cc) u.0,
    )
    | inr later ↦ (
      λ t. cc (
          apart (key x) (key y)
            (first_row-All (λ z. same_text (key z) (key y) ≡ false) p ys later u.0)),
      first_row-Only P p ys u.1 later px,
    )
  ]
