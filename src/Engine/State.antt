-- ===== src/Engine/State.antt =====
-- engine.go: the state of a market engine, its modes and their transitions. The fields that are
-- atomic in the source are read and written here in one order of events. Kafka offsets are
-- never negative, and no offset applied, -1 in the source, is `none`.
use tradedrift.Base.{ℕ, List, Option, none, some, Bool, true, false, ◌==◌, if◌then◌else◌, empty_map}
use tradedrift.OrderBook.{
  SideType, OrderType, OrderBook, CancelledOrder, DepthSnapshot, KafkaPosition, Fill,
  new_order_book,
}
use tradedrift.Snapshot.Serialize.{BookSnapshot}
use tradedrift.Engine.Ring.{EventRingBuffer, new_ring}

pub data Mode : Type 0 where
  mode_recovery mode_live mode_blocked mode_reconciling : Mode

abbrev pub same_mode : Mode → Mode → Bool
same_mode mode_recovery mode_recovery = true
same_mode mode_live mode_live = true
same_mode mode_blocked mode_blocked = true
same_mode mode_reconciling mode_reconciling = true
same_mode _ _ = false

pub record MarketConfig : Type 0 where
  pub market_id : ℕ
  pub tick_size : ℕ
  pub lot_size : ℕ
  pub partition : ℕ
  pub snapshot_interval : ℕ
  pub snapshot_duration : ℕ

pub record OrderCreatedPayload : Type 0 where
  pub order_id : ℕ
  pub user_id : ℕ
  pub market_id : ℕ
  pub side : SideType
  pub order_type : OrderType
  pub price : ℕ
  pub quantity : ℕ
  pub client_order_id : ℕ
  pub occurred_at : ℕ

pub record OrderCancelPayload : Type 0 where
  pub order_id : ℕ
  pub user_id : ℕ
  pub market_id : ℕ

-- The type of an event, with the payload that the consumer sets for it. `unknown` is any other type.
pub data EventBody : Type 0 where
  order_created : OrderCreatedPayload → EventBody
  order_cancel : OrderCancelPayload → EventBody
  recovery_barrier : EventBody
  unknown : EventBody

pub record InputEvent : Type 0 where
  pub event_id : ℕ
  pub body : EventBody
  pub topic : ℕ
  pub partition : ℕ
  pub offset : ℕ

pub record MatchResult : Type 0 where
  pub fills : List Fill
  pub cancel_result : Option CancelledOrder
  pub depth_snapshot : DepthSnapshot
  pub source_position : KafkaPosition
  pub snapshot : Option BookSnapshot
  pub barrier_reached : Bool
  pub barrier_offset : ℕ

-- What `PublishAtomicSnapshot` stored last: the state's name and the sequence.
pub record Published : Type 0 where
  pub state : Mode
  pub sequence : ℕ

pub record MarketEngine : Type 0 where
  pub market_id : ℕ
  pub book : OrderBook
  pub config : MarketConfig
  pub mode : Mode
  pub blocked_reason : Option ℕ
  pub processed_events : ℕ → Option Bool
  pub event_ring : EventRingBuffer
  pub last_applied_offset : Option ℕ
  pub is_fatal_halt : Bool
  pub snapshot : Published

unfoldable pub new_market_engine : MarketConfig → MarketEngine
unfolding new_order_book
new_market_engine config = record {
  market_id = config.market_id;
  book = new_order_book config.market_id;
  config = config;
  mode = mode_recovery;
  blocked_reason = none;
  processed_events = empty_map;
  event_ring = new_ring;
  last_applied_offset = none;
  is_fatal_halt = false;
  snapshot = record { state = mode_recovery; sequence = 0 };
}

unfoldable pub publish_atomic_snapshot : MarketEngine → MarketEngine
publish_atomic_snapshot m = record m {
  snapshot = record { state = m.mode; sequence = m.book.sequence };
}

-- `m.mode.CompareAndSwap(from, to)`: the new engine and whether it swapped.
abbrev swap_mode : Mode → Mode → MarketEngine → MarketEngine × Bool
swap_mode from to m = if same_mode m.mode from then (record m { mode = to }, true) else (m, false)

-- The Boolean is whether the Go function returned a nil error.
unfoldable pub set_live : MarketEngine → MarketEngine × Bool
unfolding publish_atomic_snapshot
set_live m =
    let (m', done) = swap_mode mode_recovery mode_live m in
    if m.is_fatal_halt
    then (m, false)
    else if done
    then (publish_atomic_snapshot m', true)
    else (m, false)

abbrev default_reason : ℕ
default_reason = 1

-- The reason is a number for its text, and 0 is the empty text.
unfoldable pub set_reconciling : ℕ → MarketEngine → MarketEngine × Bool
unfolding publish_atomic_snapshot
set_reconciling reason m =
    let m' = record m { blocked_reason = some (if reason == 0 then default_reason else reason) } in
    let (m'', done) = swap_mode mode_recovery mode_reconciling m' in
    if m.is_fatal_halt
    then (m, false)
    else if same_mode m.mode mode_reconciling
    then (m', true)
    else if done
    then (publish_atomic_snapshot m'', true)
    else (m', false)

unfoldable pub approve_reconciliation : MarketEngine → MarketEngine × Bool
unfolding publish_atomic_snapshot
approve_reconciliation m =
    let (m', done) = swap_mode mode_reconciling mode_live m in
    if m.is_fatal_halt
    then (m, false)
    else if done
    then (publish_atomic_snapshot (record m' { blocked_reason = none }), true)
    else (m, false)

-- The loop of compare-and-swap ends with the mode blocked, whatever it was; 0 is a nil error.
unfoldable pub set_blocked : ℕ → MarketEngine → MarketEngine
unfolding publish_atomic_snapshot
set_blocked err m = publish_atomic_snapshot (record m {
  mode = mode_blocked;
  blocked_reason = some (if err == 0 then default_reason else err);
})

unfoldable pub trigger_fatal_halt : MarketEngine → MarketEngine
trigger_fatal_halt m = record m { is_fatal_halt = true }
