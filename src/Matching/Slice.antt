-- ===== src/Matching/Slice.antt =====
-- `insertAt` at the index of `binarySearchInsertIndex`, and `removeAt` at that of `findPriceIndex`.
use tradedrift.Base.{
  ℕ, suc, ◌<◌, ◌≡◌, refl, ◌≢◌, ap, inl, inr, ◌∙◌, List, [], ◌∷◌, ◌++◌, some, Bool, true, false,
  ◌==◌, if◌then◌else◌, arith, All, All-map, length, take, drop, Bool-cases, lt→ltb,
}
use tradedrift.OrderBook.{Side}
use tradedrift.Matcher.Search.{
  is_worse, is_not_better, binary_search_insert_index, find_price_index,
}
use tradedrift.Matcher.Ops.{insert_at, remove_at}
use tradedrift.Matching.Prices.{
  Worse, IsSorted, Worse-trans, is_worse→Worse, Worse-of_not, first_index, sort_search-first_index,
}

-- The price goes in before the first price that is worse.
abbrev pub insert_price : Bool → ℕ → List ℕ → List ℕ
insert_price b price [] = price ∷ []
insert_price b price (p ∷ ps) =
    if is_worse b p price then price ∷ p ∷ ps else p ∷ insert_price b price ps

abbrev pub remove_price : ℕ → List ℕ → List ℕ
remove_price price [] = []
remove_price price (p ∷ ps) = if p == price then ps else p ∷ remove_price price ps

abbrev pub has : ℕ → List ℕ → Bool
has price [] = false
has price (p ∷ ps) = if p == price then true else has price ps

is_worse_down :
    (b : Bool) (price p q : ℕ) → Worse b q p → is_worse b p price ≡ true → is_worse b q price ≡ true
is_worse_down true price p q h e = ground arith
is_worse_down false price p q h e = ground arith

is_not_better_down :
    (b : Bool) (price p q : ℕ)
    → Worse b q p
    → is_not_better b p price ≡ true
    → is_not_better b q price ≡ true
is_not_better_down true price p q h e = ground arith
is_not_better_down false price p q h e = ground arith

pub insert_at-first_index :
    (b : Bool) (price : ℕ) (ps : List ℕ)
    → insert_at ps (first_index (λ p. is_worse b p price) ps) price ≡ insert_price b price ps
unfolding insert_at
insert_at-first_index b price [] = refl
insert_at-first_index b price (p ∷ ps) = elim (Bool-cases (is_worse b p price)) [
  | inl e ↦ rw e
  | inr e ↦ rw e (ap (λ l. p ∷ l) (insert_at-first_index b price ps))
]

-- On a sorted slice the binary search and insertAt together are the insertion of the price before
-- the first worse one.
pub insert_at_sorted :
    (s : Side) (price : ℕ)
    → IsSorted s.is_bid s.sorted_prices
    → insert_at s.sorted_prices (binary_search_insert_index s price) price
      ≡ insert_price s.is_bid price s.sorted_prices
unfolding binary_search_insert_index
insert_at_sorted s price h =
    ap (λ i. insert_at s.sorted_prices i price)
      (sort_search-first_index s.is_bid (λ p. is_worse s.is_bid p price)
        (λ p q. is_worse_down s.is_bid price p q) s.sorted_prices h)
    ∙ insert_at-first_index s.is_bid price s.sorted_prices

is_not_better_at : (b : Bool) (p : ℕ) → is_not_better b p p ≡ true
is_not_better_at true p = ground arith
is_not_better_at false p = ground arith

is_better : (b : Bool) (p q : ℕ) → Worse b q p → is_not_better b p q ≡ false
is_better true p q h = ground arith
is_better false p q h = ground arith

-- A price further down the slice is worse than the first.
pub has-Worse :
    (b : Bool) (price p : ℕ) (ps : List ℕ)
    → All (λ q. Worse b q p) ps
    → has price ps ≡ true
    → Worse b price p
has-Worse b price p [] h e = cc
has-Worse b price p (q ∷ ps) h e = elim (Bool-cases (q == price)) [
  | inl same ↦ let e' : q ≡ price = ground arith in rw (← e') h.0
  | inr other ↦ has-Worse b price p ps h.1 (rw other at e)
]

module _ (b : Bool) (price : ℕ) where
  pub first_index-lt :
      (ps : List ℕ)
      → IsSorted b ps
      → has price ps ≡ true
      → first_index (λ p. is_not_better b p price) ps < length ps
  first_index-lt [] s e = cc
  first_index-lt (p ∷ ps) s e = elim (Bool-cases (p == price)) [
    | inl same ↦
        let e' : p ≡ price = ground arith in rw (e', is_not_better_at b price) (omega arith)
    | inr other ↦
        let rest : has price ps ≡ true = rw other at e in
        rw (is_better b p price (has-Worse b price p ps s.0 rest))
          (omega (arith, first_index-lt ps s.1 rest))
  ]

  cut : List ℕ → ℕ → List ℕ
  cut ps i = take i ps ++ drop (suc i) ps

  cut-first_index :
      (ps : List ℕ)
      → IsSorted b ps
      → has price ps ≡ true
      → cut ps (first_index (λ p. is_not_better b p price) ps) ≡ remove_price price ps
  unfolding cut
  cut-first_index [] s e = refl
  cut-first_index (p ∷ ps) s e = elim (Bool-cases (p == price)) [
    | inl same ↦ let e' : p ≡ price = ground arith in rw (same, e', is_not_better_at b price)
    | inr other ↦
        let rest : has price ps ≡ true = rw other at e in
        rw (other, is_better b p price (has-Worse b price p ps s.0 rest))
          (ap (λ l. p ∷ l) (cut-first_index ps s.1 rest))
  ]

-- On a sorted slice that holds the price, findPriceIndex and removeAt together remove exactly that
-- price, without a panic.
pub remove_at_sorted :
    (s : Side) (price : ℕ)
    → IsSorted s.is_bid s.sorted_prices
    → has price s.sorted_prices ≡ true
    → remove_at s.sorted_prices (find_price_index s price)
      ≡ some (remove_price price s.sorted_prices)
unfolding find_price_index remove_at cut
remove_at_sorted s price h e =
    rw
      (sort_search-first_index s.is_bid (λ p. is_not_better s.is_bid p price)
        (λ p q. is_not_better_down s.is_bid price p q) s.sorted_prices h)
      (rw (lt→ltb _ _ (first_index-lt s.is_bid price s.sorted_prices h e))
        (ap some (cut-first_index s.is_bid price s.sorted_prices h e)))

pub All-insert_price :
    (P : ℕ → Type 0) (b : Bool) (price : ℕ) (ps : List ℕ)
    → P price
    → All P ps
    → All P (insert_price b price ps)
All-insert_price P b price [] h hs = (h, tt)
All-insert_price P b price (p ∷ ps) h hs = elim (Bool-cases (is_worse b p price)) [
  | inl e ↦ rw e (h, hs)
  | inr e ↦ rw e (hs.0, All-insert_price P b price ps h hs.1)
]

pub All-remove_price :
    (P : ℕ → Type 0) (price : ℕ) (ps : List ℕ) → All P ps → All P (remove_price price ps)
All-remove_price P price [] hs = hs
All-remove_price P price (p ∷ ps) hs = elim (Bool-cases (p == price)) [
  | inl e ↦ rw e hs.1
  | inr e ↦ rw e (hs.0, All-remove_price P price ps hs.1)
]

-- An insertion keeps the slice sorted.
pub insert_price-IsSorted :
    (b : Bool) (price : ℕ) (ps : List ℕ)
    → IsSorted b ps
    → has price ps ≡ false
    → IsSorted b (insert_price b price ps)
insert_price-IsSorted b price [] s new = (tt, tt)
insert_price-IsSorted b price (p ∷ ps) s new = elim (Bool-cases (is_worse b p price)) [
  | inl e ↦ rw e (
      let w = is_worse→Worse b p price e in
      (
        (
          w,
          All-map (λ q. Worse b q p) (λ q. Worse b q price) ps (λ q h. Worse-trans b q p price h w)
              s.0,
        ),
        s,
      ))
  | inr e ↦
      let other : p ≢ price =
        λ same. (let t : (p == price) ≡ true = ground arith in cc (rw t at new)) in
      let rest : has price ps ≡ false = ground arith in
      rw e (
        All-insert_price (λ q. Worse b q p) b price ps (Worse-of_not b p price e other) s.0,
        insert_price-IsSorted b price ps s.1 rest,
      )
]

pub remove_price-IsSorted :
    (b : Bool) (price : ℕ) (ps : List ℕ) → IsSorted b ps → IsSorted b (remove_price price ps)
remove_price-IsSorted b price [] s = s
remove_price-IsSorted b price (p ∷ ps) s = elim (Bool-cases (p == price)) [
  | inl e ↦ rw e s.1
  | inr e ↦
      rw e (All-remove_price (λ q. Worse b q p) price ps s.0, remove_price-IsSorted b price ps s.1)
]

pub has-insert_price :
    (b : Bool) (price q : ℕ) (ps : List ℕ)
    → has q (insert_price b price ps) ≡ (if price == q then true else has q ps)
has-insert_price b price q [] = refl
has-insert_price b price q (p ∷ ps) = elim (Bool-cases (is_worse b p price)) [
  | inl e ↦ rw e
  | inr e ↦ rw e (rw (has-insert_price b price q ps) (ground arith))
]

-- Nothing but the price goes.
pub has-remove_price :
    (b : Bool) (price q : ℕ) (ps : List ℕ)
    → q ≢ price
    → has q ps ≡ true
    → has q (remove_price price ps) ≡ true
has-remove_price b price q [] n h = h
has-remove_price b price q (p ∷ ps) n h = ground (arith, has-remove_price b price q ps n)
