-- ===== src/Tests/Orders.antt =====
-- The order service at two orders and a trade between them.
use Prim.Native.String.{String}
use tradedrift.Base.{ℕ, ◌≡◌, refl, List, [], ◌∷◌, none, some, update_rows, arith}
use tradedrift.Base.Outcomes.{Outcome, ok, ◌>>=◌, ◌>>◌, check, require}
use tradedrift.Orders.Table.{
  OrderSide, side_buy, type_limit, side_sell, open_order, Order, OrderTables, OrderError,
}
use tradedrift.Orders.Repository.{
  order_of, enqueue_release, fill_row, lock_order, validate_fill, fill_order, same_order,
  same_market, apply_new_fill, apply_trade_fill,
}
use tradedrift.Orders.Lifecycle.{
  OrderCall, create_call, cancel_call, fill_call, cancelled_call, absent_call, committed,
  perform_all, Good,
}
use tradedrift.Orders.Theorems.{perform_all-Good, apply_trade_fill_twice}

abbrev new_order : String → OrderSide → ℕ → Order
new_order id side quantity = record {
  id = id;
  user_id = "user";
  market_id = "BTC-USDT";
  side = side;
  order_type = type_limit;
  price = some 400;
  quantity = quantity;
  filled_quantity = 0;
  remaining_quantity = quantity;
  status = open_order;
  idempotency_key = none;
}

abbrev no_orders : OrderTables String
no_orders = record { orders = []; outbox = []; processed_trades = []; wallet_releases = [] }

no_orders-Good : Good no_orders
no_orders-Good = record { ids = tt; consistent = tt; queued = tt }

bid : Order
bid = new_order "bid" side_buy 5

ask : Order
ask = new_order "ask" side_sell 3

abbrev calls : List (OrderCall String)
calls =
    create_call bid (some "created")
    ∷ create_call ask (some "created")
    ∷ fill_call "trade" (some "bid") (some "ask") (some 3)
    ∷ cancel_call bid "cancel"
    ∷ cancelled_call "bid"
    ∷ absent_call "ask"
    ∷ []

perform_all-Good_example : Good (perform_all calls no_orders)
unfolding bid ask
perform_all-Good_example =
    perform_all-Good calls no_orders
      (
        record { unfilled = refl; whole = refl; positive = omega arith; opened = refl },
        (
          record { unfilled = refl; whole = refl; positive = omega arith; opened = refl },
          (tt, (tt, (tt, (tt, tt)))),
        ),
      )
      no_orders-Good

listed : OrderTables String
listed = record no_orders { orders = bid ∷ ask ∷ [] }

fill : OrderTables String → Outcome OrderError (OrderTables String)
fill = apply_trade_fill "trade" (some "bid") (some "ask") (some 3)

traded : OrderTables String
traded = committed (fill listed) listed

fill_listed : fill listed ≡ ok traded
unfolding fill traded listed bid ask apply_trade_fill apply_new_fill lock_order order_of
    validate_fill fill_order fill_row enqueue_release same_order same_market check require
    update_rows ◌>>=◌ ◌>>◌
fill_listed = refl

apply_trade_fill_twice_example :
    apply_trade_fill "trade" (some "bid") (some "ask") (some 3) traded ≡ ok traded
unfolding fill
apply_trade_fill_twice_example =
    apply_trade_fill_twice "trade" (some "bid") (some "ask") (some 3) listed traded fill_listed
