-- ===== src/Matcher/Loop.antt =====
-- matcher.go: the matching loop, `Match`.
use Prim.Native.Nat.{min}
use tradedrift.Base.{
  ℕ, zero, suc, ◌-◌, List, [], ◌∷◌, ◌++◌, Option, none, some, Bool, true, false, ltb, leb, ◌==◌,
  if◌then◌else◌, ◌&&◌, ◌>>=◌, length,
}
use tradedrift.OrderBook.{
  SideType, buy, sell, OrderType, limit, market, OrderNode, OrderBook, Fill, next_sequence,
}
use tradedrift.Matcher.Ops.{
  Env, opposite, get_opposite_side, insert, execute_best, partial_fill, full_fill, collect,
}

pub data Mode : Type 0 where
  mode_recovery mode_live : Mode

abbrev pub by_side : SideType → ℕ → ℕ → ℕ
by_side buy a b = a
by_side sell a b = b

abbrev pub is_limit : OrderType → Bool
is_limit limit = true
is_limit market = false

-- In recovery the fills are suppressed.
abbrev pub emitted : Mode → List Fill → List Fill
emitted mode_recovery fills = []
emitted mode_live fills = fills

-- The comparisons of `crossable`: the type, side and price of the incoming order, and the maker's price.
abbrev pub crossable_for : OrderType → SideType → ℕ → ℕ → Bool
crossable_for market buy price best = if ltb 0 price then leb best price else true
crossable_for market sell price best = if ltb 0 price then leb price best else true
crossable_for limit buy price best = leb best price
crossable_for limit sell price best = leb price best

unfoldable pub crossable : OrderNode → OrderNode → Bool
crossable incoming best = crossable_for incoming.order_type incoming.side incoming.price best.price

abbrev buy_order_of : OrderNode → OrderNode → ℕ
buy_order_of incoming best = by_side incoming.side incoming.order_id best.order_id

abbrev sell_order_of : OrderNode → OrderNode → ℕ
sell_order_of incoming best = by_side incoming.side best.order_id incoming.order_id

abbrev buy_user_of : OrderNode → OrderNode → ℕ
buy_user_of incoming best = by_side incoming.side incoming.user_id best.user_id

abbrev sell_user_of : OrderNode → OrderNode → ℕ
sell_user_of incoming best = by_side incoming.side best.user_id incoming.user_id

-- The fill that one round appends; `sequence` is the book's after its increment.
unfoldable pub make_fill : Env → ℕ → ℕ → ℕ → OrderNode → OrderNode → ℕ → Fill
make_fill env event_id market_id sequence incoming best fill_index = record {
  trade_id = env.trade_id event_id best.order_id incoming.order_id fill_index;
  market_id = market_id;
  sequence = sequence;
  maker_order_id = best.order_id;
  taker_order_id = incoming.order_id;
  buy_order_id = buy_order_of incoming best;
  sell_order_id = sell_order_of incoming best;
  buyer_user_id = buy_user_of incoming best;
  seller_user_id = sell_user_of incoming best;
  price = best.price;
  quantity = min incoming.remaining_qty best.remaining_qty;
  executed_at = if incoming.timestamp == 0 then env.now else incoming.timestamp;
}

-- The condition of the loop and its two breaks: the order that the next round fills against.
unfoldable pub next_best : OrderBook → OrderNode → Option OrderNode
unfolding execute_best crossable get_opposite_side
next_best book incoming =
    if ltb 0 incoming.remaining_qty
    then (execute_best (get_opposite_side book incoming.side) >>= λ best.
        if crossable incoming best then some best else none)
    else none

-- One round of the loop against `best`.
unfoldable pub match_step :
    Env → ℕ → OrderBook → OrderNode → OrderNode → ℕ → Option (OrderBook × OrderNode × Fill)
unfolding full_fill partial_fill make_fill
match_step env event_id book incoming best fill_index = do
  let fill_qty = min incoming.remaining_qty best.remaining_qty
  let book' = record book { sequence = next_sequence book.sequence }
  let fill = make_fill env event_id book.market_id book'.sequence incoming best fill_index
  book'' ←
      if fill_qty == best.remaining_qty
      then full_fill book' (opposite incoming.side) best
      else partial_fill book' (opposite incoming.side) best fill_qty
  some (book'', record incoming { remaining_qty = incoming.remaining_qty - fill_qty }, fill)

-- `none` is a panic, or a loop that has not ended when the fuel is used up.
unfoldable pub match_loop :
    ℕ → Env → ℕ → OrderBook → OrderNode → ℕ → List Fill → Option (OrderBook × OrderNode × List Fill)
unfolding next_best match_step
match_loop zero env event_id book incoming fill_index fills = none
match_loop (suc fuel) env event_id book incoming fill_index fills = elim (next_best book incoming) [
  | none ↦ some (book, incoming, fills)
  | some best ↦
      (match_step env event_id book incoming best fill_index >>= λ (b, i, f).
      match_loop fuel env event_id b i (suc fill_index) (fills ++ f ∷ []))
]

-- The remainder of a LIMIT order rests in the book.
unfoldable pub rest_remainder : OrderBook → OrderNode → OrderBook
unfolding insert
rest_remainder book incoming =
    if ltb 0 incoming.remaining_qty && is_limit incoming.order_type
    then insert (record book { sequence = next_sequence book.sequence }) incoming
    else book

-- `Match` returns the book, the incoming order as the loop left it, and the fills.
unfoldable pub match_order :
    Env → OrderBook → OrderNode → Mode → ℕ → Option (OrderBook × OrderNode × List Fill)
unfolding match_loop rest_remainder collect
match_order env book incoming mode event_id = do
  let opp = get_opposite_side book incoming.side
  let fuel = suc (length (collect opp.price_levels opp.sorted_prices))
  (book', incoming', fills) ← match_loop fuel env event_id book incoming 0 []
  some (rest_remainder book' incoming', incoming', emitted mode fills)
