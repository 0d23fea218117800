-- ===== src/Orders/Table.antt =====
-- repository/order.go, repository/wallet_release.go and migration/001_create_orders.sql,
-- 002_create_wallet_releases.sql: the rows of the order service. Quantities are numbers of units of
-- 10^-10, as the columns DECIMAL(30,10) hold them; time stamps are left out.
use Prim.Native.String.{String}
use tradedrift.Base.{ℕ, Option, Bool, true, false, List}

pub data OrderSide : Type 0 where
  side_buy side_sell : OrderSide

pub data OrderType : Type 0 where
  type_limit type_market : OrderType

pub data OrderStatus : Type 0 where
  open_order partially_filled filled cancelling cancelled : OrderStatus

pub record Order : Type 0 where
  pub id : String
  pub user_id : String
  pub market_id : String
  pub side : OrderSide
  pub order_type : OrderType
  pub price : Option ℕ
  pub quantity : ℕ
  pub filled_quantity : ℕ
  pub remaining_quantity : ℕ
  pub status : OrderStatus
  pub idempotency_key : Option String

-- A command for the matching engine; `P` is the type of the JSON payloads.
pub record OrderCommand (P : Type 0) : Type 0 where
  pub aggregate_id : String
  pub event_type : String
  pub payload : P
  pub partition_key : String

-- `processed_trades` has the ids of the trades, `wallet_releases` those of the orders that wait for a
-- release of their reservation.
pub record OrderTables (P : Type 0) : Type 0 where
  pub orders : List Order
  pub outbox : List (OrderCommand P)
  pub processed_trades : List String
  pub wallet_releases : List String

pub data OrderError : Type 0 where
  order_not_found order_not_cancellable duplicate_idempotency_key rejected : OrderError

abbrev pub is_filled : OrderStatus → Bool
is_filled filled = true
is_filled _ = false

-- OPEN, PARTIALLY_FILLED, as UpdateStatusToCancelling wants.
abbrev pub is_cancellable : OrderStatus → Bool
is_cancellable open_order = true
is_cancellable partially_filled = true
is_cancellable _ = false

-- OPEN, PARTIALLY_FILLED, CANCELLING.
abbrev pub is_unsettled : OrderStatus → Bool
is_unsettled open_order = true
is_unsettled partially_filled = true
is_unsettled cancelling = true
is_unsettled _ = false

-- OPEN, PARTIALLY_FILLED, CANCELLING, CANCELLED.
abbrev pub is_fillable : OrderStatus → Bool
is_fillable filled = false
is_fillable _ = true

abbrev pub same_side : OrderSide → OrderSide → Bool
same_side side_buy side_buy = true
same_side side_sell side_sell = true
same_side _ _ = false
