-- ===== src/Tests/Matching.antt =====
-- matcher.go on the books of `Books`.
use tradedrift.Base.{
  ℕ, ◌+◌, ◌≡◌, refl, List, [], ◌∷◌, Option, none, some, map, true, if◌then◌else◌, arith,
}
use tradedrift.OrderBook.{
  OrderBook, OrderNode, Fill, new_order_book, next_sequence, Side, empty_side, CancelOutcome,
  removed_from_book, DepthSnapshot, buy,
}
use tradedrift.Matcher.Search.{binary_search_insert_index, find_price_index}
use tradedrift.Matcher.Ops.{
  insert, cancel, get_side, opposite, get_depth, insert_at, remove_at, place,
}
use tradedrift.Matcher.Loop.{mode_live, match_order}
use tradedrift.Matching.Prices.{IsSorted}
use tradedrift.Matching.Slice.{insert_at_sorted, remove_at_sorted, insert_price, remove_price}
use tradedrift.Matching.Orders.{total_remaining}
use tradedrift.Matching.Levels.{IsResting, is_buy, queue}
use tradedrift.Matching.Book.{IsBook}
use tradedrift.Matching.Match.{Matched, match_order-Matched, opposite_queue, own_queue, rests}
use tradedrift.Matching.Fills.{total_filled, Against, Numbered, advance}
use tradedrift.Matching.Theorems.{
  Returns, rested_qty, match_conserves, match_price_time_priority, match_sequence,
}
use tradedrift.Matching.Priority.{NoneBetter, Rested}
use tradedrift.Matching.Crossing.{IsUncrossed, match_order-IsUncrossed}
use tradedrift.Matching.Cancel.{Outcome, cancel_outcome, cancel-insert}
use tradedrift.Matching.Depth.{ShowsSide, get_depth_exact}
use tradedrift.Tests.Books.{
  clock, quoted, crossing_bid, resting_bid, two_asks, two_asks-IsBook, quoted-IsBook,
  quoted-IsUncrossed, crossing_bid_is_new,
}

abbrev fill_sizes : Option (OrderBook × OrderNode × List Fill) → List (ℕ × ℕ × ℕ)
fill_sizes none = []
fill_sizes (some (b, n, fs)) = map (λ (f : Fill). (f.maker_order_id, f.price, f.quantity)) fs

-- The bid takes the nearer ask whole and two of the farther.
crossing_fills :
    fill_sizes (match_order clock quoted crossing_bid mode_live 50) ≡ (2, 103, 4) ∷ (1, 105, 2) ∷ []
unfolding new_order_book insert match_order place binary_search_insert_index find_price_index
crossing_fills = refl

match_order-Matched_example : Matched clock quoted crossing_bid 50
match_order-Matched_example =
    match_order-Matched clock quoted crossing_bid 50 quoted-IsBook crossing_bid_is_new

match_conserves_example :
    (b' : OrderBook) × (taker : OrderNode) × (fills : List Fill) × Returns clock quoted crossing_bid
      50 b' taker fills
    × (total_filled fills + taker.remaining_qty ≡ 6)
    × (total_filled fills + total_remaining (opposite_queue b' crossing_bid)
        ≡ total_remaining (opposite_queue quoted crossing_bid))
    × (total_remaining (own_queue b' crossing_bid)
        ≡ total_remaining (own_queue quoted crossing_bid) + rested_qty taker)
match_conserves_example =
    match_conserves clock quoted crossing_bid 50 quoted-IsBook crossing_bid_is_new

match_price_time_priority_example :
    (b' : OrderBook) × (taker : OrderNode) × (fills : List Fill) × Returns clock quoted crossing_bid
      50 b' taker fills
    × Against crossing_bid taker.remaining_qty fills (opposite_queue quoted crossing_bid)
    × NoneBetter (is_buy (opposite buy)) fills (opposite_queue b' crossing_bid)
    × Rested
        (rests taker)
        (is_buy buy)
        taker
        (own_queue quoted crossing_bid)
        (own_queue b' crossing_bid)
match_price_time_priority_example =
    match_price_time_priority clock quoted crossing_bid 50 quoted-IsBook crossing_bid_is_new

match_sequence_example :
    (b' : OrderBook) × (taker : OrderNode) × (fills : List Fill) × Returns clock quoted crossing_bid
      50 b' taker fills
    × Numbered quoted.sequence fills
    × (b'.sequence ≡ (
        if rests taker
        then next_sequence (advance quoted.sequence fills)
        else advance quoted.sequence fills))
match_sequence_example =
    match_sequence clock quoted crossing_bid 50 quoted-IsBook crossing_bid_is_new

match_order-IsUncrossed_example :
    (b' : OrderBook) × (taker : OrderNode) × (fills : List Fill) × Returns clock quoted crossing_bid
      50 b' taker fills
    × IsBook b'
    × IsUncrossed b'
match_order-IsUncrossed_example =
    match_order-IsUncrossed clock quoted crossing_bid 50 quoted-IsBook crossing_bid_is_new
      quoted-IsUncrossed

-- Order 1 belongs to user 11.
cancel_outcome_example :
    (b' : OrderBook) × (out : CancelOutcome) × (cancel quoted 1 11 ≡ some (b', out))
    × IsBook b'
    × Outcome quoted 1 11 b' out
cancel_outcome_example = cancel_outcome quoted 1 11 quoted-IsBook

resting_bid_is_new : two_asks.order_index 4 ≡ none
unfolding new_order_book insert
resting_bid_is_new = refl

resting_bid-IsResting : IsResting buy 101 resting_bid
resting_bid-IsResting = record {
  at_price = refl;
  positive = omega arith;
  on_side = refl;
  is_limit = refl;
}

cancel-insert_example :
    (b' : OrderBook) × (out : CancelOutcome) × (cancel (insert two_asks resting_bid) 4 14
      ≡ some (b', out))
    × (out.status ≡ removed_from_book)
    × (out.remaining_quantity ≡ 8)
    × (queue (get_side b' buy) ≡ queue (get_side two_asks buy))
    × (get_side b' (opposite buy) ≡ get_side two_asks (opposite buy))
cancel-insert_example =
    cancel-insert two_asks resting_bid two_asks-IsBook resting_bid_is_new resting_bid-IsResting

get_depth_exact_example :
    (snap : DepthSnapshot) × (get_depth clock quoted 20 ≡ some snap)
    × (snap.sequence ≡ quoted.sequence)
    × (snap.market_id ≡ quoted.market_id)
    × ShowsSide quoted.bids 20 snap.bids
    × ShowsSide quoted.asks 20 snap.asks
get_depth_exact_example = get_depth_exact clock quoted 20 quoted-IsBook

-- Bid prices, best first.
abbrev bids : Side
bids = record (empty_side true) { sorted_prices = 105 ∷ 103 ∷ 100 ∷ [] }

bids-IsSorted : IsSorted bids.is_bid bids.sorted_prices
bids-IsSorted = ((omega arith, (omega arith, tt)), ((omega arith, tt), (tt, tt)))

insert_at_sorted_example :
    insert_at bids.sorted_prices (binary_search_insert_index bids 104) 104
    ≡ insert_price true 104 bids.sorted_prices
insert_at_sorted_example = insert_at_sorted bids 104 bids-IsSorted

remove_at_sorted_example :
    remove_at bids.sorted_prices (find_price_index bids 103)
    ≡ some (remove_price 103 bids.sorted_prices)
remove_at_sorted_example = remove_at_sorted bids 103 bids-IsSorted refl
