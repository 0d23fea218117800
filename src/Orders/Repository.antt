-- ===== src/Orders/Repository.antt =====
-- repository/postgres/order_repository.go: the transactions on the orders. An id that is `none` is the
-- empty text, a side of a trade that is not an order of this service.
use Prim.Native.String.{String}
use text.Mathlib.Text.{◌==◌ as same_text}
use tradedrift.Base.{
  ℕ, ◌+◌, ◌-◌, Option, none, some, Bool, true, false, not, ◌&&◌, List, [], ◌∷◌, ◌++◌, ltb, leb,
  if◌then◌else◌, first_row, any_row, update_rows,
}
use tradedrift.Base.Outcomes.{Outcome, ok, ◌>>=◌, ◌>>◌, check, require}
use tradedrift.Orders.Table.{
  OrderSide, side_buy, side_sell, OrderStatus, partially_filled, filled, cancelling, cancelled,
  Order, OrderCommand, OrderTables, OrderError, order_not_found, order_not_cancellable,
  duplicate_idempotency_key, rejected, is_cancellable, is_unsettled, is_fillable, same_side,
}

unfoldable pub order_of : String → List Order → Option Order
order_of id = first_row (λ o. same_text o.id id)

-- A key of its own clashes with no row; a missing key, which is NULL, clashes with none.
unfoldable pub same_idempotency_key : Option String → Option String → Bool
same_idempotency_key (some a) (some b) = same_text a b
same_idempotency_key _ _ = false

-- The insert of an order; its outbox row is left out if it has no payload.
unfoldable pub create_order :
    {P : Type 0} → Order → Option P → OrderTables P → Outcome OrderError (OrderTables P)
create_order {P = P} o payload db = do
  check (not (any_row (λ x. same_text x.id o.id) db.orders)) rejected
  check (not (any_row (λ x. same_idempotency_key x.idempotency_key o.idempotency_key) db.orders))
      duplicate_idempotency_key
  let events : List (OrderCommand P) = elim payload [
    | none ↦ []
    | some p ↦
        record {
          aggregate_id = o.id;
          event_type = "OrderCreated";
          payload = p;
          partition_key = o.market_id;
        }
        ∷ []
  ]
  ok (record db { orders = db.orders ++ (o ∷ []); outbox = db.outbox ++ events })

-- The UPDATE's condition, and then the row that it writes.
abbrev pub start_cancel : Order → Order
start_cancel o = record o { status = cancelling }

unfoldable pub update_status_to_cancelling :
    {P : Type 0} → Order → P → OrderTables P → Outcome OrderError (OrderTables P)
update_status_to_cancelling {P = P} o payload db = do
  let exists = any_row (λ x. same_text x.id o.id && same_text x.user_id o.user_id) db.orders
  orders ←
      require
        (update_rows
          (λ x. same_text x.id o.id && (same_text x.user_id o.user_id && is_cancellable x.status))
          start_cancel db.orders)
        (if exists then order_not_cancellable else order_not_found)
  let event : OrderCommand P = record {
    aggregate_id = o.id;
    event_type = "OrderCancelRequested";
    payload = payload;
    partition_key = o.market_id;
  }
  ok (record db { orders = orders; outbox = db.outbox ++ (event ∷ []) })

-- INSERT INTO wallet_releases ... ON CONFLICT (order_id) DO NOTHING.
unfoldable pub enqueue_release : String → List String → List String
enqueue_release order releases =
    if any_row (same_text order) releases then releases else releases ++ (order ∷ [])

-- The columns that a fill writes; `LEAST` and `GREATEST` are written out.
abbrev pub fill_status : OrderStatus → OrderStatus
fill_status cancelling = cancelling
fill_status cancelled = cancelled
fill_status _ = partially_filled

unfoldable pub fill_row : ℕ → Order → Order
fill_row quantity o = record o {
  filled_quantity =
      if leb o.quantity (o.filled_quantity + quantity)
      then o.quantity
      else o.filled_quantity + quantity;
  remaining_quantity = o.remaining_quantity - quantity;
  status = if leb o.remaining_quantity quantity then filled else fill_status o.status;
}

-- SELECT ... FOR UPDATE of the order of a side, if the trade has one.
unfoldable pub lock_order :
    {P : Type 0} → Option String → OrderTables P → Outcome OrderError (Option Order)
lock_order none db = ok none
lock_order (some id) db = do o ← require (order_of id db.orders) order_not_found; ok (some o)

unfoldable pub validate_fill : Option Order → OrderSide → ℕ → Outcome OrderError (Unit {0})
validate_fill none side quantity = ok tt
validate_fill (some o) side quantity = do
  check (same_side o.side side) rejected
  check (is_fillable o.status) rejected
  check (leb quantity o.remaining_quantity) rejected

-- The update of a locked order; an order that it fills is queued for a release.
unfoldable pub fill_order :
    {P : Type 0} → Option Order → OrderSide → ℕ → OrderTables P → Outcome OrderError (OrderTables P)
fill_order none side quantity db = ok db
fill_order (some o) side quantity db = do
  orders ←
      require
        (update_rows (λ x. same_text x.id o.id && same_side x.side side) (fill_row quantity)
          db.orders)
        rejected
  let releases =
      if leb o.remaining_quantity quantity
      then enqueue_release o.id db.wallet_releases
      else db.wallet_releases
  ok (record db { orders = orders; wallet_releases = releases })

unfoldable pub same_order : Option String → Option String → Bool
same_order (some a) (some b) = same_text a b
same_order _ _ = false

unfoldable pub same_market : Option Order → Option Order → Bool
same_market (some a) (some b) = same_text a.market_id b.market_id
same_market _ _ = true

-- The part of ApplyTradeFill after the check that the trade is new.
unfoldable pub apply_new_fill :
    {P : Type 0}
    → String
    → Option String
    → Option String
    → ℕ
    → OrderTables P
    → Outcome OrderError (OrderTables P)
apply_new_fill {P = P} trade buy_id sell_id quantity db = do
  buy ← lock_order buy_id db
  sell ← lock_order sell_id db
  validate_fill buy side_buy quantity
  validate_fill sell side_sell quantity
  check (same_market buy sell) rejected
  let recorded : OrderTables P = record db {
    processed_trades = db.processed_trades ++ (trade ∷ []);
  }
  bought ← fill_order buy side_buy quantity recorded
  fill_order sell side_sell quantity bought

-- `quantity` is the fill's positive decimal, `none` a text that is none.
unfoldable pub apply_trade_fill :
    {P : Type 0}
    → String
    → Option String
    → Option String
    → Option ℕ
    → OrderTables P
    → Outcome OrderError (OrderTables P)
apply_trade_fill trade buy_id sell_id quantity db = do
  n ← require quantity rejected
  check (ltb 0 n) rejected
  check (not (same_order buy_id sell_id)) rejected
  let applied = apply_new_fill trade buy_id sell_id n db
  if any_row (same_text trade) db.processed_trades then ok db else applied

-- An UPDATE of an order that is not settled, which queues its release; `none` is no such order, and
-- then nothing is written.
unfoldable pub settled_rows :
    {P : Type 0} → Option (List Order) → String → OrderTables P → Option (OrderTables P)
settled_rows none id db = none
settled_rows (some orders) id db =
    some (record db { orders = orders; wallet_releases = enqueue_release id db.wallet_releases })

unfoldable pub settle_order :
    {P : Type 0} → (Order → Order) → String → OrderTables P → Option (OrderTables P)
settle_order f id db =
    settled_rows (update_rows (λ o. same_text o.id id && is_unsettled o.status) f db.orders) id db

abbrev pub cancel_row : Order → Order
cancel_row o = record o { status = cancelled }

unfoldable pub mark_order_cancelled : {P : Type 0} → String → OrderTables P → Option (OrderTables P)
mark_order_cancelled id db = settle_order cancel_row id db

abbrev pub absent_row : Order → Order
absent_row o = record o {
  status = if leb o.quantity o.filled_quantity then filled else cancelled;
  remaining_quantity = if leb o.quantity o.filled_quantity then 0 else o.remaining_quantity;
}

unfoldable pub reconcile_absent_order :
    {P : Type 0} → String → OrderTables P → Option (OrderTables P)
reconcile_absent_order id db = settle_order absent_row id db
