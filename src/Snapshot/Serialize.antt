-- ===== src/Snapshot/Serialize.antt =====
-- snapshot.go: the snapshot types and `Serialize`.
use Prim.Native.String.{String}
use tradedrift.Base.{ℕ, ℤ, List, ◌++◌, Option, map}
use tradedrift.OrderBook.{SideType, buy, sell, OrderType, limit, market, OrderNode, OrderBook}
use tradedrift.Matcher.Ops.{collect}

pub record SnapshotOrder : Type 0 where
  pub order_id : String
  pub user_id : String
  pub client_order_id : ℕ
  pub side : String
  pub order_type : String
  pub price : String
  pub original_qty : String
  pub remaining_qty : String
  pub timestamp : String

pub record BookSnapshot : Type 0 where
  pub schema_version : ℕ
  pub market_id : ℕ
  pub partition : ℕ
  pub offset : ℕ
  pub sequence : ℕ
  pub orders : List SnapshotOrder

abbrev pub current_schema_version : ℕ
current_schema_version = 1

-- The texts of uuids, decimals and times, and the SHA-256 of the JSON text of a snapshot.
pub record Codec : Type 0 where
  pub uuid_string : ℕ → String
  pub uuid_parse : String → Option ℕ
  pub decimal_string : ℕ → String
  pub decimal_parse : String → Option ℤ
  pub time_format : ℕ → String
  pub time_parse : String → Option ℕ
  pub checksum : BookSnapshot → Option String

abbrev pub side_string : SideType → String
side_string buy = "BUY"
side_string sell = "SELL"

abbrev pub type_string : OrderType → String
type_string limit = "LIMIT"
type_string market = "MARKET"

unfoldable pub snapshot_order : Codec → OrderNode → SnapshotOrder
snapshot_order c node = record {
  order_id = c.uuid_string node.order_id;
  user_id = c.uuid_string node.user_id;
  client_order_id = node.client_order_id;
  side = side_string node.side;
  order_type = type_string node.order_type;
  price = c.decimal_string node.price;
  original_qty = c.decimal_string node.original_qty;
  remaining_qty = c.decimal_string node.remaining_qty;
  timestamp = c.time_format node.timestamp;
}

-- The two loops over the sorted prices: a price without a level is skipped, as in `collect`.
unfoldable pub serialize : Codec → OrderBook → ℕ → ℕ → BookSnapshot
unfolding collect snapshot_order
serialize c book partition offset = record {
  schema_version = current_schema_version;
  market_id = book.market_id;
  partition = partition;
  offset = offset;
  sequence = book.sequence;
  orders =
      map (snapshot_order c) (collect book.bids.price_levels book.bids.sorted_prices)
      ++ map (snapshot_order c) (collect book.asks.price_levels book.asks.sorted_prices);
}
