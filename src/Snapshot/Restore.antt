-- ===== src/Snapshot/Restore.antt =====
-- snapshot.go: `Restore` and `InsertRestoredOrder`. The live book is written only after the last
-- check, so a refusal is an error without a book.
use mathlib.Core.Option.{Option, none, some}
use text.Mathlib.Text.{◌==◌ as same_text}
use Prim.Native.String.{String}
use tradedrift.Base.{
  ℕ, suc, ◌+◌, ◌%◌, List, [], ◌∷◌, Bool, true, false, ltb, leb, ◌==◌, if◌then◌else◌, ◌&&◌, ◌||◌,
  not, update, positive, magnitude,
}
use tradedrift.OrderBook.{SideType, buy, sell, limit, OrderNode, Side, OrderBook, new_order_book}
use tradedrift.Matcher.Search.{is_worse}
use tradedrift.Matcher.Ops.{get_side, set_side, insert_at, new_level, push_back}
use tradedrift.Snapshot.Serialize.{Codec, SnapshotOrder, BookSnapshot, current_schema_version}

-- Why a snapshot is refused, in the order of the checks.
pub data RestoreError : Type 0 where
  schema_mismatch market_mismatch partition_mismatch beyond_checkpoint no_checksum
        checksum_mismatch :
      RestoreError
  bad_order_id bad_user_id bad_timestamp bad_price bad_original_qty bad_remaining_qty : RestoreError
  bad_side bad_order_type original_not_positive remaining_not_positive remaining_above_original :
      RestoreError
  off_tick original_off_lot remaining_off_lot price_not_positive zero_time far_future
        duplicate_order :
      RestoreError
  buy_after_sell bids_not_descending bids_not_fifo asks_not_ascending asks_not_fifo : RestoreError

pub data Restored {ℓ} (A : Type ℓ) : Type ℓ where
  restored : A → Restored A
  refused : RestoreError → Restored A

infixl 5 ◌>>=◌ ◌>>◌
abbrev pub ◌>>=◌ {ℓ κ} : {A : Type ℓ} {B : Type κ} → Restored A → (A → Restored B) → Restored B
restored a >>= f = f a
refused e >>= f = refused e

abbrev pub ◌>>◌ {ℓ} : {B : Type ℓ} → Restored (Unit {0}) → Restored B → Restored B
m >> k = m >>= λ _. k

abbrev pub require {ℓ} : {A : Type ℓ} → Option A → RestoreError → Restored A
require none e = refused e
require (some a) e = restored a

abbrev pub check : Bool → RestoreError → Restored (Unit {0})
check true e = restored tt
check false e = refused e

-- The linear search that snapshot.go has under the matcher's name.
abbrev pub linear_insert_index : Bool → List ℕ → ℕ → ℕ
linear_insert_index bid [] price = 0
linear_insert_index bid (p ∷ ps) price =
    let rest = linear_insert_index bid ps price in if is_worse bid p price then 0 else suc rest

unfoldable pub place_restored : Side → OrderNode → Side
unfolding push_back insert_at
place_restored side node = elim (side.price_levels node.price) [
  | none ↦ record side {
    price_levels =
        update side.price_levels node.price (some (push_back node (new_level node.price)));
    sorted_prices =
        insert_at side.sorted_prices (linear_insert_index side.is_bid side.sorted_prices node.price)
          node.price;
  }
  | some level ↦ record side {
    price_levels = update side.price_levels node.price (some (push_back node level));
  }
]

unfoldable pub insert_restored_order : OrderBook → OrderNode → OrderBook
unfolding get_side set_side place_restored
insert_restored_order book node =
    record (set_side book node.side (place_restored (get_side book node.side) node)) {
      order_index = update book.order_index node.order_id (some node);
    }

-- The parameters of `Restore` that the loop reads, and the clock.
pub record Rules : Type 0 where
  pub market_id : ℕ
  pub tick_size : ℕ
  pub lot_size : ℕ
  pub now : ℕ

-- The variables of the loop; `last` is none before the first order, and otherwise its side, price
-- and time.
pub record Cursor : Type 0 where
  pub staged : OrderBook
  pub seen_asks : Bool
  pub last : Option (SideType × ℕ × ℕ)

abbrev pub parse_side : String → Option SideType
parse_side text =
    if same_text text "BUY" then some buy else if same_text text "SELL" then some sell else none

abbrev pub aligned : ℕ → ℕ → Bool
aligned size x = if ltb 0 size then x % size == 0 else true

-- Twenty-four hours.
abbrev pub one_day : ℕ
one_day = 86400000000000

-- The texts and values of one order, up to the test of its time.
unfoldable pub read_order : Codec → Rules → SnapshotOrder → Restored OrderNode
read_order c rules o = do
  order_id ← require (c.uuid_parse o.order_id) bad_order_id
  user_id ← require (c.uuid_parse o.user_id) bad_user_id
  time ← require (c.time_parse o.timestamp) bad_timestamp
  price ← require (c.decimal_parse o.price) bad_price
  original ← require (c.decimal_parse o.original_qty) bad_original_qty
  remaining ← require (c.decimal_parse o.remaining_qty) bad_remaining_qty
  side ← require (parse_side o.side) bad_side
  check (same_text o.order_type "LIMIT") bad_order_type
  original ← require (positive original) original_not_positive
  remaining ← require (positive remaining) remaining_not_positive
  check (leb remaining original) remaining_above_original
  check (aligned rules.tick_size (magnitude price)) off_tick
  check (aligned rules.lot_size original) original_off_lot
  check (aligned rules.lot_size remaining) remaining_off_lot
  price ← require (positive price) price_not_positive
  check (not (time == 0)) zero_time
  check (leb time (rules.now + one_day)) far_future
  restored (record {
    order_id = order_id;
    user_id = user_id;
    market_id = rules.market_id;
    side = side;
    order_type = limit;
    price = price;
    original_qty = original;
    remaining_qty = remaining;
    timestamp = time;
    client_order_id = o.client_order_id;
  })

-- Bids descending, asks ascending, and times in order at one price; the first order of a side follows
-- anything.
abbrev pub check_after : Option (SideType × ℕ × ℕ) → SideType → ℕ → ℕ → Restored (Unit {0})
check_after none side price time = restored tt
check_after (some (buy, last_price, last_time)) buy price time = do
  check (leb price last_price) bids_not_descending
  check (not (price == last_price && ltb time last_time)) bids_not_fifo
check_after (some (sell, last_price, last_time)) sell price time = do
  check (leb last_price price) asks_not_ascending
  check (not (price == last_price && ltb time last_time)) asks_not_fifo
check_after (some (buy, last_price, last_time)) sell price time = restored tt
check_after (some (sell, last_price, last_time)) buy price time = restored tt

abbrev pub is_sell : SideType → Bool
is_sell buy = false
is_sell sell = true

abbrev pub is_absent {ℓ} : {A : Type ℓ} → Option A → Bool
is_absent none = true
is_absent (some a) = false

-- The checks of one order against what the loop has seen, and its insertion.
unfoldable pub stage_order : Cursor → OrderNode → Restored Cursor
unfolding insert_restored_order
stage_order c node = do
  check (is_absent (c.staged.order_index node.order_id)) duplicate_order
  check (not (c.seen_asks && not (is_sell node.side))) buy_after_sell
  check_after c.last node.side node.price node.timestamp
  restored (record {
    staged = insert_restored_order c.staged node;
    seen_asks = c.seen_asks || is_sell node.side;
    last = some (node.side, node.price, node.timestamp);
  })

unfoldable pub restore_orders : Codec → Rules → Cursor → List SnapshotOrder → Restored Cursor
unfolding read_order stage_order
restore_orders c rules cursor [] = restored cursor
restore_orders c rules cursor (o ∷ os) = do
  node ← read_order c rules o
  cursor' ← stage_order cursor node
  restore_orders c rules cursor' os

-- The book that the loop fills before the live book is touched.
abbrev pub staged_book : ℕ → ℕ → OrderBook
staged_book market_id sequence = record (new_order_book market_id) { sequence = sequence }

-- `checkpoint` is the offset up to which results are durable, and none is -1.
abbrev pub is_beyond : ℕ → Option ℕ → Bool
is_beyond offset none = true
is_beyond offset (some checkpoint) = ltb checkpoint offset

unfoldable pub restore :
    Codec → OrderBook → BookSnapshot → Rules → ℕ → Option ℕ → String → Restored OrderBook
unfolding restore_orders new_order_book
restore c book snap rules partition checkpoint expected = do
  check (snap.schema_version == current_schema_version) schema_mismatch
  check (snap.market_id == rules.market_id) market_mismatch
  check (snap.partition == partition) partition_mismatch
  check (not (is_beyond snap.offset checkpoint)) beyond_checkpoint
  computed ← require (c.checksum snap) no_checksum
  check (same_text computed expected) checksum_mismatch
  let start : Cursor = record {
    staged = staged_book book.market_id snap.sequence;
    seen_asks = false;
    last = none;
  }
  cursor ← restore_orders c rules start snap.orders
  let staged = cursor.staged
  restored (record book {
    bids = staged.bids;
    asks = staged.asks;
    order_index = staged.order_index;
    sequence = staged.sequence;
  })
