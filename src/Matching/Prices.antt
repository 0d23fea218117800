-- ===== src/Matching/Prices.antt =====
-- The sorted slice of prices: both binary searches find the first index that passes their test, so
-- an insertion keeps the slice sorted and a removal takes out the price that was asked for.
use tradedrift.Base.{
  ℕ, zero, suc, ◌+◌, ◌/◌, ◌≤◌, ◌<◌, ◌≡◌, ◌≢◌, ap, inl, inr, List, [], ◌∷◌, Bool, true, false, ltb,
  if◌then◌else◌, arith, All, length, Bool-cases,
}
use tradedrift.Matcher.Search.{price_at, search_loop, sort_search, is_worse}

-- `p` is a worse price than `q`: lower for bids, higher for asks.
abbrev pub Worse : Bool → ℕ → ℕ → Type 0
Worse true p q = p < q
Worse false p q = q < p

-- Best price first, and no price twice.
abbrev pub IsSorted : Bool → List ℕ → Type 0
IsSorted b [] = Unit
IsSorted b (p ∷ ps) = All (λ q. Worse b q p) ps × IsSorted b ps

pub Worse-trans : (b : Bool) (p q r : ℕ) → Worse b p q → Worse b q r → Worse b p r
Worse-trans true p q r h k = omega arith
Worse-trans false p q r h k = omega arith

pub is_worse→Worse : (b : Bool) (p q : ℕ) → is_worse b p q ≡ true → Worse b p q
is_worse→Worse true p q h = ground arith
is_worse→Worse false p q h = ground arith

pub Worse→worse_test : (b : Bool) (p q : ℕ) → Worse b p q → is_worse b p q ≡ true
Worse→worse_test true p q h = ground arith
Worse→worse_test false p q h = ground arith

pub not-Worse : (b : Bool) (p q : ℕ) → Worse b q p → is_worse b p q ≡ false
not-Worse true p q h = ground arith
not-Worse false p q h = ground arith

pub not_worse_self : (b : Bool) (p : ℕ) → is_worse b p p ≡ false
not_worse_self true p = ground arith
not_worse_self false p = ground arith

pub Worse-ne : (b : Bool) (p q : ℕ) → Worse b p q → p ≢ q
Worse-ne true p q h = omega arith
Worse-ne false p q h = omega arith

-- A price that is neither worse nor the same is better.
pub Worse-of_not : (b : Bool) (p q : ℕ) → is_worse b p q ≡ false → p ≢ q → Worse b q p
Worse-of_not true p q h n = ground arith
Worse-of_not false p q h n = ground arith

abbrev pub first_index : (ℕ → Bool) → List ℕ → ℕ
first_index f [] = 0
first_index f (p ∷ ps) = if f p then 0 else suc (first_index f ps)

module _ (f : ℕ → Bool) (n : ℕ) (mono : (a c : ℕ) → a ≤ c → c < n → f a ≡ true → f c ≡ true) where
  -- All indices below `r` fail the test, and `r` passes it if it is an index.
  abbrev Found : ℕ → Type 0
  Found r = (r ≤ n) × ((k : ℕ) → k < r → f k ≡ false) × (r < n → f r ≡ true)

  below-mid : (h k : ℕ) → h < n → f h ≡ false → k < h + 1 → f k ≡ false
  below-mid h k hn e lt = elim (Bool-cases (f k)) [
    | inl t ↦ absurd (no_both (mono k h (omega arith) hn t))
    | inr t ↦ t
  ]
    where
      no_both : f h ≡ true → ⊥
      no_both t = cc

  search_loop-Found :
      (fuel i j : ℕ)
      → j ≤ i + fuel
      → i ≤ j
      → j ≤ n
      → ((k : ℕ) → k < i → f k ≡ false)
      → (j < n → f j ≡ true)
      → Found (search_loop fuel f i j)
  unfolding search_loop
  search_loop-Found zero i j enough le jn low high =
      let e : i ≡ j = omega arith in (omega arith, low, rw e high)
  search_loop-Found (suc fuel) i j enough le jn low high = elim (Bool-cases (ltb i j)) [
    | inr done ↦ rw done (let e : i ≡ j = ground arith in (omega arith, low, rw e high))
    | inl more ↦ rw more (elim (Bool-cases (f ((i + j) / 2))) [
      | inl pass ↦ rw pass (
          search_loop-Found fuel i ((i + j) / 2) (ground arith) (ground arith) (ground arith) low
            (λ _. pass))
      | inr fail ↦ rw fail (
          search_loop-Found fuel ((i + j) / 2 + 1) j (ground arith) (ground arith) jn
            (λ k lt. below-mid ((i + j) / 2) k (ground arith) fail lt) high)
    ])
  ]

first_index_unique :
    (f : ℕ → Bool) (ps : List ℕ) (r : ℕ)
    → r ≤ length ps
    → ((k : ℕ) → k < r → f (price_at ps k) ≡ false)
    → (r < length ps → f (price_at ps r) ≡ true)
    → r ≡ first_index f ps
first_index_unique f [] r le low high = omega arith
first_index_unique f (p ∷ ps) zero le low high = rw (high (omega arith))
first_index_unique f (p ∷ ps) (suc r) le low high = rw (low 0 (omega arith)) (
    ap suc (
      first_index_unique f ps r (omega arith) (λ k lt. low (suc k) (omega arith))
        (λ lt. high (omega arith))))

module _ (b : Bool) (f : ℕ → Bool) (down : (p q : ℕ) → Worse b q p → f p ≡ true → f q ≡ true) where
  price_at-All :
      (P : ℕ → Type 0) (ps : List ℕ) (c : ℕ) → c < length ps → All P ps → P (price_at ps c)
  price_at-All P [] c lt h = absurd (omega arith)
  price_at-All P (p ∷ ps) zero lt h = h.0
  price_at-All P (p ∷ ps) (suc c) lt h = price_at-All P ps c (omega arith) h.1

  price_at_mono :
      (ps : List ℕ)
      → IsSorted b ps
      → (a c : ℕ) → a ≤ c
      → c < length ps
      → f (price_at ps a) ≡ true
      → f (price_at ps c) ≡ true
  price_at_mono [] s a c le lt h = absurd (omega arith)
  price_at_mono (p ∷ ps) s zero zero le lt h = h
  price_at_mono (p ∷ ps) s zero (suc c) le lt h =
      down p (price_at ps c) (price_at-All (λ q. Worse b q p) ps c (omega arith) s.0) h
  price_at_mono (p ∷ ps) s (suc a) zero le lt h = absurd (omega arith)
  price_at_mono (p ∷ ps) s (suc a) (suc c) le lt h =
      price_at_mono ps s.1 a c (omega arith) (omega arith) h

  -- `sort.Search` over a sorted slice is the first index that passes.
  pub sort_search-first_index :
      (ps : List ℕ)
      → IsSorted b ps
      → sort_search (length ps) (λ i. f (price_at ps i)) ≡ first_index f ps
  unfolding sort_search
  sort_search-first_index ps s =
      let (le, low, high) =
        search_loop-Found (λ i. f (price_at ps i)) (length ps) (price_at_mono ps s) (length ps) 0
          (length ps) (omega arith) (omega arith) (omega arith) (λ k lt. absurd (omega arith))
          (λ lt. absurd (omega arith)) in
      first_index_unique f ps _ le low high
