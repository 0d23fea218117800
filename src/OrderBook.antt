-- ===== src/OrderBook.antt =====
-- services/matching-engine/internal/orderbook: book.go, side.go, level.go, node.go and result.go.
-- Decimals are numbers of a smallest unit, and are never negative here: the consumer refuses a
-- quantity that is not positive and a price below zero before the engine sees them.
-- Ids, market names and client order ids are only compared, so they are numbers, and 0 is `uuid.Nil`.
-- A time is a number, and 0 is the zero time.
use tradedrift.Base.{ℕ, ◌+◌, ◌%◌, ◌^◌, List, [], Option, empty_map, Bool, true, false}

pub data SideType : Type 0 where
  buy sell : SideType

pub data OrderType : Type 0 where
  limit market : OrderType

-- The list element to which the node points back is found by the order's id instead.
pub record OrderNode : Type 0 where
  pub order_id : ℕ
  pub user_id : ℕ
  pub market_id : ℕ
  pub side : SideType
  pub order_type : OrderType
  pub price : ℕ
  pub original_qty : ℕ
  pub remaining_qty : ℕ
  pub timestamp : ℕ
  pub client_order_id : ℕ

-- The FIFO list, oldest order first.
pub record PriceLevel : Type 0 where
  pub price : ℕ
  pub orders : List OrderNode
  pub total_qty : ℕ

-- The key of a price level is `price.String()`, which is the same text for equal decimals.
pub record Side : Type 0 where
  pub sorted_prices : List ℕ
  pub price_levels : ℕ → Option PriceLevel
  pub is_bid : Bool

-- The index and the level lists point to the same node in the source; here each holds its value,
-- and what writes to a node through one pointer writes to both.
pub record OrderBook : Type 0 where
  pub market_id : ℕ
  pub sequence : ℕ
  pub bids : Side
  pub asks : Side
  pub order_index : ℕ → Option OrderNode

-- `Sequence++` on a uint64.
unfoldable pub next_sequence : ℕ → ℕ
next_sequence n = (n + 1) % 2 ^ 64

abbrev pub empty_side : Bool → Side
empty_side bid = record { sorted_prices = []; price_levels = empty_map; is_bid = bid }

unfoldable pub new_order_book : ℕ → OrderBook
new_order_book m = record {
  market_id = m;
  sequence = 0;
  bids = empty_side true;
  asks = empty_side false;
  order_index = empty_map;
}

pub record Fill : Type 0 where
  pub trade_id : ℕ
  pub market_id : ℕ
  pub sequence : ℕ
  pub maker_order_id : ℕ
  pub taker_order_id : ℕ
  pub buy_order_id : ℕ
  pub sell_order_id : ℕ
  pub buyer_user_id : ℕ
  pub seller_user_id : ℕ
  pub price : ℕ
  pub quantity : ℕ
  pub executed_at : ℕ

-- `unset` is the zero value of the Go string.
pub data CancelStatus : Type 0 where
  unset removed_from_book already_absent user_mismatch invalid_request : CancelStatus

pub record CancelOutcome : Type 0 where
  pub status : CancelStatus
  pub order_id : ℕ
  pub user_id : ℕ
  pub market_id : ℕ
  pub remaining_quantity : ℕ

-- The texts that the engine gives as a reason.
pub data Reason : Type 0 where
  user_requested ioc_expired invalid_order_parameters invalid_market_id : Reason
  market_blocked market_reconciling mismatched_user : Reason

pub record CancelledOrder : Type 0 where
  pub order_id : ℕ
  pub user_id : ℕ
  pub market_id : ℕ
  pub remaining_quantity : ℕ
  pub reason : Reason
  pub cancel_status : CancelStatus
  pub cancelled_at : ℕ
  pub source_offset : ℕ

pub record DepthLevel : Type 0 where
  pub price : ℕ
  pub quantity : ℕ

pub record DepthSnapshot : Type 0 where
  pub market_id : ℕ
  pub sequence : ℕ
  pub bids : List DepthLevel
  pub asks : List DepthLevel
  pub snapshot_at : ℕ

pub record KafkaPosition : Type 0 where
  pub topic : ℕ
  pub partition : ℕ
  pub offset : ℕ
