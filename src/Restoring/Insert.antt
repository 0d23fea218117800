-- ===== src/Restoring/Insert.antt =====
-- `InsertRestoredOrder` is the matcher's `Insert`: the linear search finds what the binary one does.
use tradedrift.Base.{
  ℕ, suc, ◌≡◌, refl, sym, ap, inl, inr, ◌∙◌, List, [], ◌∷◌, none, Bool, Bool-cases, Option-cases,
}
use tradedrift.OrderBook.{OrderNode, Side, OrderBook}
use tradedrift.Matcher.Search.{is_worse, binary_search_insert_index}
use tradedrift.Matcher.Ops.{insert_at, place, insert, get_side}
use tradedrift.Snapshot.Restore.{linear_insert_index, place_restored, insert_restored_order}
use tradedrift.Matching.Prices.{IsSorted, first_index}
use tradedrift.Matching.Slice.{insert_at_sorted, insert_at-first_index}
use tradedrift.Matching.Book.{IsBook, IsBook-at, insert_new}

linear-first_index :
    (bid : Bool) (ps : List ℕ) (price : ℕ)
    → linear_insert_index bid ps price ≡ first_index (λ p. is_worse bid p price) ps
linear-first_index bid [] price = refl
linear-first_index bid (p ∷ ps) price = elim (Bool-cases (is_worse bid p price)) [
  | inl e ↦ rw e
  | inr e ↦ rw e (ap suc (linear-first_index bid ps price))
]

-- Both searches put the price at the same place of a sorted slice.
linear_is_binary :
    (s : Side) (price : ℕ)
    → IsSorted s.is_bid s.sorted_prices
    → insert_at s.sorted_prices (linear_insert_index s.is_bid s.sorted_prices price) price
      ≡ insert_at s.sorted_prices (binary_search_insert_index s price) price
linear_is_binary s price h =
    ap (λ i. insert_at s.sorted_prices i price) (linear-first_index s.is_bid s.sorted_prices price)
    ∙ insert_at-first_index s.is_bid price s.sorted_prices
    ∙ sym (insert_at_sorted s price h)

place_restored_is_place :
    (s : Side) (node : OrderNode)
    → IsSorted s.is_bid s.sorted_prices
    → place_restored s node ≡ place s node
unfolding place_restored place
place_restored_is_place s node h = elim (Option-cases (s.price_levels node.price)) [
  | inl e ↦ rw (e, place_restored, place) (rw (linear_is_binary s node.price h) refl)
  | inr (l, e) ↦ rw (e, place_restored, place) refl
]

-- On a well-formed book that does not hold the order's id, InsertRestoredOrder with its linear
-- search does what the matcher's Insert with its binary search does.
pub insert_restored_is_insert :
    (b : OrderBook) (node : OrderNode)
    → IsBook b
    → b.order_index node.order_id ≡ none
    → insert_restored_order b node ≡ insert b node
unfolding insert_restored_order
insert_restored_is_insert b node h new =
    let ok = (IsBook-at node.side b h).own_ok in
    let sorted : IsSorted (get_side b node.side).is_bid (get_side b node.side).sorted_prices =
      rw ok.bid ok.sorted in
    rw (place_restored_is_place (get_side b node.side) node sorted) (sym (insert_new b node new))
