-- ===== src/Engine/Loop.antt =====
-- event_loop.go: `Run`, as what each message does to the engine, its counters and the output queue.
-- A panic is `none`. Each message comes with the clock and the id function of its time. `run` is the
-- loop while its context lasts; Shutdown has what follows its end, by `drain` and `final_snapshot`.
use tradedrift.Base.{
  ℕ, ◌+◌, ◌-◌, List, [], ◌∷◌, ◌++◌, Option, none, some, Bool, true, false, leb, ◌==◌, ◌&&◌, ◌||◌,
  not, if◌then◌else◌, ◌>>=◌, update,
}
use tradedrift.OrderBook.{DepthSnapshot}
use tradedrift.Matcher.Ops.{Env, get_depth}
use tradedrift.Snapshot.Serialize.{Codec, serialize}
use tradedrift.Engine.Ring.{add, ring_buffer_capacity}
use tradedrift.Engine.State.{
  Mode, mode_live, EventBody, recovery_barrier, InputEvent, MatchResult, MarketEngine,
  publish_atomic_snapshot, trigger_fatal_halt,
}
use tradedrift.Engine.Apply.{apply_event, position}

-- `running` waits at the `select`; `closed` has closed the output queue and returned; `stopped` has
-- returned after a failed mutation, with the queue left open.
pub data Phase : Type 0 where
  running closed stopped : Phase

pub record RunState : Type 0 where
  pub engine : MarketEngine
  pub last_snapshot_time : ℕ
  pub event_count : ℕ
  pub output : List MatchResult
  pub phase : Phase

abbrev pub emit : RunState → MatchResult → RunState
emit rs res = record rs { output = rs.output ++ res ∷ [] }

-- A result with nothing in it but the position and the depth.
abbrev pub empty_result : InputEvent → DepthSnapshot → MatchResult
empty_result event depth = record {
  fills = [];
  cancel_result = none;
  depth_snapshot = depth;
  source_position = position event;
  snapshot = none;
  barrier_reached = false;
  barrier_offset = 0;
}

abbrev pub no_depth : ℕ → DepthSnapshot
no_depth market = record { market_id = market; sequence = 0; bids = []; asks = []; snapshot_at = 0 }

abbrev pub is_barrier : EventBody → Bool
is_barrier recovery_barrier = true
is_barrier _ = false

-- `event.Offset <= m.lastAppliedOffset`
abbrev pub already_applied : ℕ → Option ℕ → Bool
already_applied offset none = false
already_applied offset (some last) = leb offset last

abbrev pub is_true : Option Bool → Bool
is_true (some true) = true
is_true _ = false

-- `event.EventID != uuid.Nil && m.processedEvents[event.EventID]`
abbrev pub is_duplicate : MarketEngine → InputEvent → Bool
is_duplicate m event = not (event.event_id == 0) && is_true (m.processed_events event.event_id)

-- `delete(m.processedEvents, evicted)` for an id that fell out of the ring.
abbrev pub forget : (ℕ → Option Bool) → ℕ → ℕ → Option Bool
forget seen evicted = if evicted == 0 then seen else update seen evicted none

unfoldable pub remember : MarketEngine → ℕ → MarketEngine
unfolding add
remember m id =
    let (ring, evicted) = add ring_buffer_capacity m.event_ring id in
    if id == 0 then m else record m {
      event_ring = ring;
      processed_events = update (forget m.processed_events evicted) id (some true);
    }

abbrev pub or_default : ℕ → ℕ → ℕ
or_default n default = if n == 0 then default else n

-- Sixty seconds.
abbrev pub minute : ℕ
minute = 60000000000

unfoldable pub snapshot_due : Env → RunState → MarketEngine → Bool
snapshot_due env rs m =
    m.book.sequence == 1
    || leb (or_default m.config.snapshot_duration minute) (env.now - rs.last_snapshot_time)
    || leb (or_default m.config.snapshot_interval 10000) (rs.event_count + 1)

abbrev pub publish_if_live : Mode → MarketEngine → MarketEngine
publish_if_live mode_live m = publish_atomic_snapshot m
publish_if_live _ m = m

-- What follows a mutation that went well.
unfoldable pub settle_event :
    Codec → Env → RunState → InputEvent → MarketEngine → MatchResult → RunState
unfolding remember snapshot_due publish_atomic_snapshot
settle_event codec env rs event m res =
    let m' = record (remember m event.event_id) { last_applied_offset = some event.offset } in
    let due = snapshot_due env rs m' in
    record rs {
      engine = publish_if_live m'.mode m';
      last_snapshot_time = if due then env.now else rs.last_snapshot_time;
      event_count = if due then 0 else rs.event_count + 1;
      output =
          rs.output
          ++ record res {
            snapshot =
                if due
                then some (serialize codec m'.book m'.config.partition event.offset)
                else res.snapshot;
          }
            ∷ [];
    }

-- `TriggerFatalHalt` and return.
abbrev pub fail_stop : RunState → MarketEngine → RunState
fail_stop rs m = record rs { engine = trigger_fatal_halt m; phase = stopped }

unfoldable pub mutate : Codec → Env → RunState → InputEvent → Option RunState
unfolding settle_event apply_event
mutate codec env rs event =
    (apply_event env rs.engine event >>= λ (m, res). elim res [
      | none ↦ some (fail_stop rs m)
      | some r ↦ some (settle_event codec env rs event m r)
    ])

-- The barrier's result carries no depth.
abbrev pub barrier_result : MarketEngine → InputEvent → MatchResult
barrier_result m event = record (empty_result event (no_depth m.market_id)) {
  barrier_reached = true;
  barrier_offset = event.offset;
}

-- An id seen before: only the offset moves on.
abbrev pub skip_to : RunState → ℕ → RunState
skip_to rs offset = record rs { engine = record rs.engine { last_applied_offset = some offset } }

-- The rest of the turn, after the test of the halt.
unfoldable pub receive_live : Codec → Env → RunState → InputEvent → Option RunState
unfolding mutate
receive_live codec env rs event =
    let m = rs.engine in
    if is_barrier event.body
    then some (emit rs (barrier_result m event))
    else if already_applied event.offset m.last_applied_offset
    then (get_depth env m.book 20 >>= λ depth. some (emit rs (empty_result event depth)))
    else if is_duplicate m event
    then (get_depth env m.book 20 >>= λ depth.
        some (emit (skip_to rs event.offset) (empty_result event depth)))
    else mutate codec env rs event

-- A message taken by the `select`.
unfoldable pub receive : Codec → Env → RunState → InputEvent → Option RunState
unfolding receive_live
receive codec env rs event =
    if rs.engine.is_fatal_halt
    then some (record rs { phase = closed })
    else receive_live codec env rs event

-- `triggerFinalSnapshot` and the close of the output queue; the topic is `orders.commands`, 0 here.
unfoldable pub final_snapshot : Codec → Env → RunState → Option RunState
final_snapshot codec env rs = elim rs.engine.last_applied_offset [
  | none ↦ some (record rs { phase = closed })
  | some offset ↦
      (get_depth env rs.engine.book 20 >>= λ depth. some (record rs {
        output =
            rs.output
            ++ record {
              fills = [];
              cancel_result = none;
              depth_snapshot = depth;
              source_position = record {
                topic = 0;
                partition = rs.engine.config.partition;
                offset = offset;
              };
              snapshot = some (serialize codec rs.engine.book rs.engine.config.partition offset);
              barrier_reached = false;
              barrier_offset = 0;
            }
              ∷ [];
        phase = closed;
      }))
]

-- A message taken by the loop that drains the queue on shutdown: no snapshots, and a redelivery is
-- passed over in silence.
unfoldable pub drain : Env → RunState → InputEvent → Option RunState
unfolding apply_event remember
drain env rs event =
    let m = rs.engine in
    if already_applied event.offset m.last_applied_offset
    then some rs
    else if is_duplicate m event
    then some (skip_to rs event.offset)
    else (apply_event env m event >>= λ (m', res). elim res [
      | none ↦ some (fail_stop rs m')
      | some r ↦ some (record rs {
        engine = record (remember m' event.event_id) { last_applied_offset = some event.offset };
        output = rs.output ++ r ∷ [];
      })
    ])

-- The messages that the loop takes, one after the other, while it runs.
unfoldable pub run : Codec → RunState → List (Env × InputEvent) → Option RunState
unfolding receive
run codec rs [] = some rs
run codec rs ((env, event) ∷ rest) = elim rs.phase [
  | running ↦ (receive codec env rs event >>= λ rs'. run codec rs' rest)
  | closed ↦ some rs
  | stopped ↦ some rs
]
