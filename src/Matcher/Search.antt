-- ===== src/Matcher/Search.antt =====
-- The searches in a sorted slice of prices: Go's `sort.Search` and its two uses in matcher.go.
use tradedrift.Base.{
  ℕ, zero, suc, ◌+◌, ◌/◌, List, [], ◌∷◌, Bool, true, false, ltb, leb, if◌then◌else◌, length,
}
use tradedrift.OrderBook.{Side}

-- `prices[i]`; the searches read only below the length.
abbrev pub price_at : List ℕ → ℕ → ℕ
price_at [] i = 0
price_at (p ∷ ps) zero = p
price_at (p ∷ ps) (suc i) = price_at ps i

-- `for i < j { h := int(uint(i+j) >> 1); if !f(h) { i = h + 1 } else { j = h } }`, and `return i`.
-- The interval shrinks in every round, so its length is enough fuel.
unfoldable pub search_loop : ℕ → (ℕ → Bool) → ℕ → ℕ → ℕ
search_loop zero f i j = i
search_loop (suc fuel) f i j =
    let h = (i + j) / 2 in
    let right = search_loop fuel f (h + 1) j in
    let left = search_loop fuel f i h in if ltb i j then (if f h then left else right) else i

-- `sort.Search(n, f)`
unfoldable pub sort_search : ℕ → (ℕ → Bool) → ℕ
unfolding search_loop
sort_search n f = search_loop n f 0 n

-- The test of `binarySearchInsertIndex`: the price at hand is worse than the new one.
abbrev pub is_worse : Bool → ℕ → ℕ → Bool
is_worse true p price = ltb p price
is_worse false p price = ltb price p

-- The test of `findPriceIndex`.
abbrev pub is_not_better : Bool → ℕ → ℕ → Bool
is_not_better true p price = leb p price
is_not_better false p price = leb price p

unfoldable pub binary_search_insert_index : Side → ℕ → ℕ
unfolding sort_search
binary_search_insert_index side price =
    sort_search (length side.sorted_prices)
      λ i. is_worse side.is_bid (price_at side.sorted_prices i) price

unfoldable pub find_price_index : Side → ℕ → ℕ
unfolding sort_search
find_price_index side price =
    sort_search (length side.sorted_prices)
      λ i. is_not_better side.is_bid (price_at side.sorted_prices i) price
