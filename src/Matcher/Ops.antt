-- ===== src/Matcher/Ops.antt =====
-- matcher.go: the operations on a book. A nil dereference or an index out of range is `none`.
use tradedrift.Base.{
  ℕ, zero, suc, ◌+◌, ◌-◌, List, [], ◌∷◌, ◌++◌, Option, none, some, ltb, ◌==◌, if◌then◌else◌, ◌>>=◌,
  update, take, drop, length,
}
use tradedrift.OrderBook.{
  SideType, buy, sell, OrderNode, PriceLevel, Side, OrderBook, CancelOutcome, removed_from_book,
  already_absent, user_mismatch, DepthLevel, DepthSnapshot,
}
use tradedrift.Matcher.Search.{binary_search_insert_index, find_price_index}

-- `uuid.NewSHA1` over the four values, and the clock.
pub record Env : Type 0 where
  pub trade_id : ℕ → ℕ → ℕ → ℕ → ℕ
  pub now : ℕ

unfoldable pub get_side : OrderBook → SideType → Side
get_side book buy = book.bids
get_side book sell = book.asks

unfoldable pub get_opposite_side : OrderBook → SideType → Side
get_opposite_side book buy = book.asks
get_opposite_side book sell = book.bids

-- The side that `getOppositeSide` points to, as a place to write to.
abbrev pub opposite : SideType → SideType
opposite buy = sell
opposite sell = buy

-- A write through the pointer that `getSide` returns.
unfoldable pub set_side : OrderBook → SideType → Side → OrderBook
set_side book buy s = record book { bids = s }
set_side book sell s = record book { asks = s }

-- `append`, `copy` and a write at the index.
unfoldable pub insert_at : List ℕ → ℕ → ℕ → List ℕ
insert_at prices idx price = take idx prices ++ price ∷ drop idx prices

-- `append(prices[:idx], prices[idx+1:]...)`, which panics for an index that is not in the slice.
unfoldable pub remove_at : List ℕ → ℕ → Option (List ℕ)
remove_at prices idx =
    if ltb idx (length prices) then some (take idx prices ++ drop (suc idx) prices) else none

-- `list.Remove` of the element that holds the order.
abbrev pub remove_order : ℕ → List OrderNode → List OrderNode
remove_order k [] = []
remove_order k (n ∷ ns) = if n.order_id == k then ns else n ∷ remove_order k ns

-- The write to `RemainingQty` through the node's pointer, as the level's list shows it.
abbrev pub replace_order : OrderNode → List OrderNode → List OrderNode
replace_order m [] = []
replace_order m (n ∷ ns) = if n.order_id == m.order_id then m ∷ ns else n ∷ replace_order m ns

abbrev pub new_level : ℕ → PriceLevel
new_level p = record { price = p; orders = []; total_qty = 0 }

unfoldable pub push_back : OrderNode → PriceLevel → PriceLevel
push_back node level = record level {
  orders = level.orders ++ node ∷ [];
  total_qty = level.total_qty + node.remaining_qty;
}

-- The part of `Insert` that works on one side.
unfoldable pub place : Side → OrderNode → Side
unfolding push_back insert_at
place side node = elim (side.price_levels node.price) [
  | none ↦ record side {
    price_levels =
        update side.price_levels node.price (some (push_back node (new_level node.price)));
    sorted_prices =
        insert_at side.sorted_prices (binary_search_insert_index side node.price) node.price;
  }
  | some level ↦ record side {
    price_levels = update side.price_levels node.price (some (push_back node level));
  }
]

unfoldable pub insert : OrderBook → OrderNode → OrderBook
insert book node = elim (book.order_index node.order_id) [
  | some old ↦ book
  | none ↦
      let book' = set_side book node.side (place (get_side book node.side) node) in
      record book' { order_index = update book.order_index node.order_id (some node) }
]

-- `elim` on the list: the level goes when its list is empty.
unfoldable pub drop_level : Side → ℕ → PriceLevel → List OrderNode → Option Side
drop_level side price level [] = do
  prices ← remove_at side.sorted_prices (find_price_index side price)
  some (record side { price_levels = update side.price_levels price none; sorted_prices = prices })
drop_level side price level (n ∷ ns) =
    some (record side { price_levels = update side.price_levels price (some level) })

-- What `Cancel` and `FullFill` both do to the side of the node.
unfoldable pub take_out : Side → OrderNode → Option Side
unfolding drop_level remove_at
take_out side node = do
  level ← side.price_levels node.price
  let orders' = remove_order node.order_id level.orders
  let level' = record level { total_qty = level.total_qty - node.remaining_qty; orders = orders' }
  drop_level side node.price level' orders'

unfoldable pub cancel_node : OrderBook → ℕ → ℕ → OrderNode → Option (OrderBook × CancelOutcome)
cancel_node book order_id user_id node =
    if node.user_id == user_id
    then (take_out (get_side book node.side) node >>= λ side. some (
      record (set_side book node.side side) { order_index = update book.order_index order_id none },
      record {
        status = removed_from_book;
        order_id = node.order_id;
        user_id = node.user_id;
        market_id = node.market_id;
        remaining_quantity = node.remaining_qty;
      },
    ))
    else some (
      book,
      record {
        status = user_mismatch;
        order_id = node.order_id;
        user_id = node.user_id;
        market_id = node.market_id;
        remaining_quantity = node.remaining_qty;
      },
    )

unfoldable pub cancel : OrderBook → ℕ → ℕ → Option (OrderBook × CancelOutcome)
unfolding cancel_node
cancel book order_id user_id = elim (book.order_index order_id) [
  | none ↦ some (
    book,
    record {
      status = already_absent;
      order_id = order_id;
      user_id = 0;
      market_id = 0;
      remaining_quantity = 0;
    },
  )
  | some node ↦ cancel_node book order_id user_id node
]

abbrev pub front : List OrderNode → Option OrderNode
front [] = none
front (n ∷ ns) = some n

abbrev pub level_orders : Option PriceLevel → List OrderNode
level_orders none = []
level_orders (some level) = level.orders

-- A look at the front of the best level.
unfoldable pub execute_best : Side → Option OrderNode
execute_best side = elim side.sorted_prices [
  | [] ↦ none
  | best_price ∷ rest ↦ (side.price_levels best_price >>= λ level. front level.orders)
]

-- The write to the node through its pointer is seen by the level's list and by the index.
unfoldable pub partial_fill : OrderBook → SideType → OrderNode → ℕ → Option OrderBook
unfolding get_side set_side
partial_fill book s node filled_qty = do
  let node' = record node { remaining_qty = node.remaining_qty - filled_qty }
  let side = get_side book s
  level ← side.price_levels node.price
  let level' = record level {
    orders = replace_order node' level.orders;
    total_qty = level.total_qty - filled_qty;
  }
  let side' = record side { price_levels = update side.price_levels node.price (some level') }
  some (record (set_side book s side') {
    order_index = update book.order_index node.order_id (some node');
  })

unfoldable pub full_fill : OrderBook → SideType → OrderNode → Option OrderBook
unfolding get_side set_side take_out
full_fill book s node = do
  side ← take_out (get_side book s) node
  some (record (set_side book s side) { order_index = update book.order_index node.order_id none })

-- The orders on a side, level by level.
unfoldable pub collect : (ℕ → Option PriceLevel) → List ℕ → List OrderNode
collect levels [] = []
collect levels (p ∷ ps) = level_orders (levels p) ++ collect levels ps

-- One side of `GetDepth`: the loop over the first `depth` prices.
unfoldable pub depth_levels : Side → List ℕ → ℕ → Option (List DepthLevel)
depth_levels side [] depth = some []
depth_levels side (p ∷ ps) zero = some []
depth_levels side (p ∷ ps) (suc depth) =
    (side.price_levels p >>= λ level. depth_levels side ps depth >>= λ rest.
    some (record { price = p; quantity = level.total_qty } ∷ rest))

unfoldable pub get_depth : Env → OrderBook → ℕ → Option DepthSnapshot
unfolding depth_levels
get_depth env book depth = do
  bids ← depth_levels book.bids book.bids.sorted_prices depth
  asks ← depth_levels book.asks book.asks.sorted_prices depth
  some (record {
    market_id = book.market_id;
    sequence = book.sequence;
    bids = bids;
    asks = asks;
    snapshot_at = env.now;
  })
