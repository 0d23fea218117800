-- ===== src/Tests/Books.antt =====
-- Books of market 7 that stand for the examples: two asks, and a bid that crosses them.
use tradedrift.Base.{ℕ, ◌+◌, ◌≡◌, refl, none, arith}
use tradedrift.OrderBook.{
  SideType, buy, sell, OrderType, limit, OrderNode, OrderBook, new_order_book,
}
use tradedrift.Matcher.Ops.{Env, insert, set_side, get_side, place, collect}
use tradedrift.Matcher.Search.{binary_search_insert_index}
use tradedrift.Matching.Levels.{IsResting, queue}
use tradedrift.Matching.Book.{IsBook, insert-Changed}
use tradedrift.Matching.Fresh.{new_order_book-IsBook}
use tradedrift.Matching.Crossing.{IsUncrossed}

abbrev pub clock : Env
clock = record { trade_id = λ market event order index. event + index; now = 1000 }

abbrev pub order : ℕ → SideType → OrderType → ℕ → ℕ → OrderNode
order id side type price qty = record {
  order_id = id;
  user_id = 10 + id;
  market_id = 7;
  side = side;
  order_type = type;
  price = price;
  original_qty = qty;
  remaining_qty = qty;
  timestamp = 900 + id;
  client_order_id = 0;
}

abbrev pub far_ask : OrderNode
far_ask = order 1 sell limit 105 5

abbrev pub near_ask : OrderNode
near_ask = order 2 sell limit 103 4

-- It takes all of `near_ask` and two of `far_ask`.
abbrev pub crossing_bid : OrderNode
crossing_bid = order 3 buy limit 106 6

abbrev pub resting_bid : OrderNode
resting_bid = order 4 buy limit 101 8

abbrev pub one_ask : OrderBook
one_ask = insert (new_order_book 7) far_ask

abbrev pub two_asks : OrderBook
two_asks = insert one_ask near_ask

pub one_ask-IsBook : IsBook one_ask
unfolding new_order_book
one_ask-IsBook =
    let r : IsResting sell 105 far_ask = record {
      at_price = refl;
      positive = omega arith;
      on_side = refl;
      is_limit = refl;
    } in
    (insert-Changed (new_order_book 7) (new_order_book-IsBook 7) far_ask refl r).well_formed

pub two_asks-IsBook : IsBook two_asks
unfolding new_order_book insert
two_asks-IsBook =
    let r : IsResting sell 103 near_ask = record {
      at_price = refl;
      positive = omega arith;
      on_side = refl;
      is_limit = refl;
    } in
    (insert-Changed one_ask one_ask-IsBook near_ask refl r).well_formed

-- Two asks and a bid below them.
abbrev pub quoted : OrderBook
quoted = insert two_asks resting_bid

pub quoted-IsBook : IsBook quoted
unfolding new_order_book insert
quoted-IsBook =
    let r : IsResting buy 101 resting_bid = record {
      at_price = refl;
      positive = omega arith;
      on_side = refl;
      is_limit = refl;
    } in
    (insert-Changed two_asks two_asks-IsBook resting_bid refl r).well_formed

pub quoted-IsUncrossed : IsUncrossed quoted
unfolding new_order_book insert queue set_side place get_side binary_search_insert_index collect
quoted-IsUncrossed = ((omega arith, (omega arith, tt)), tt)

pub crossing_bid_is_new : quoted.order_index 3 ≡ none
unfolding new_order_book insert
crossing_bid_is_new = refl
