-- ===== src/Tests/Engine.antt =====
-- The engine of market 7 in its modes, with messages of the examples.
use tradedrift.Base.{pos, ◌≡◌, refl, ◌≢◌, inl, List, [], ◌∷◌, none, some, true, arith, ◌+◌}
use tradedrift.OrderBook.{market_blocked, buy, limit}
use tradedrift.Matcher.Ops.{Env}
use tradedrift.Snapshot.Serialize.{Codec}
use tradedrift.Engine.Ring.{EventRingBuffer, add}
use tradedrift.Engine.State.{
  Mode, mode_live, mode_blocked, mode_reconciling, mode_recovery, MarketConfig, MarketEngine,
  MatchResult, InputEvent, order_created, recovery_barrier, order_cancel, new_market_engine,
  trigger_fatal_halt,
}
use tradedrift.Engine.Apply.{position, apply_event}
use tradedrift.Engine.Loop.{drain, fail_stop, barrier_result, RunState, running, receive, run, emit}
use tradedrift.Safety.Apply.{IsGood, Replied, apply_event-Replied}
use tradedrift.Safety.Denials.{AllDenied, run_denies}
use tradedrift.Safety.Loop.{IsReady}
use tradedrift.Engine.Shutdown.{run_to_end}
use tradedrift.Safety.Shutdown.{Ended, run_to_end_closes}
use tradedrift.Safety.Run.{positions, run_answers, receive_redelivered}
use tradedrift.Safety.Drain.{drain_halts_on_barrier}
use tradedrift.Safety.Modes.{
  call_set_live, call_set_blocked, call_set_reconciling, call_approve, call_publish, perform,
  perform_all, Performed, perform-Performed, blocked_absorbs, reconciling_needs_approval,
  halted_never_live, published_agrees,
}
use tradedrift.Safety.Ring.{IsRing, contents, enqueue, add_is_enqueue}
use tradedrift.Tests.Books.{clock, quoted, quoted-IsBook, quoted-IsUncrossed}

-- Texts of one form each; the loop only stores what they give.
abbrev codec : Codec
codec = record {
  uuid_string = λ id. "id";
  uuid_parse = λ text. some 1;
  decimal_string = λ d. "1";
  decimal_parse = λ text. some (pos 1);
  time_format = λ t. "now";
  time_parse = λ text. some 1;
  checksum = λ snapshot. some "sum";
}

abbrev config : MarketConfig
config = record {
  market_id = 7;
  tick_size = 1;
  lot_size = 1;
  partition = 3;
  snapshot_interval = 100;
  snapshot_duration = 0;
}

abbrev engine : Mode → MarketEngine
engine mode = record (new_market_engine config) { mode = mode; book = quoted }

-- The bid that crosses both asks of the book.
abbrev create : InputEvent
create = record {
  event_id = 60;
  body = order_created (record {
    order_id = 3;
    user_id = 13;
    market_id = 7;
    side = buy;
    order_type = limit;
    price = 106;
    quantity = 6;
    client_order_id = 0;
    occurred_at = 950;
  });
  topic = 0;
  partition = 3;
  offset = 20;
}

-- User 11 takes back what is left of the farther ask.
abbrev take_back : InputEvent
take_back = record {
  event_id = 61;
  body = order_cancel (record { order_id = 1; user_id = 11; market_id = 7 });
  topic = 0;
  partition = 3;
  offset = 21;
}

quoted-IsGood : IsGood quoted
quoted-IsGood = record { well_formed = quoted-IsBook; uncrossed = quoted-IsUncrossed }

apply_event-Replied_example :
    Replied (engine mode_live) create (apply_event clock (engine mode_live) create)
unfolding new_market_engine
apply_event-Replied_example = apply_event-Replied clock (engine mode_live) create quoted-IsGood tt

abbrev start : RunState
start = record {
  engine = engine mode_live;
  last_snapshot_time = 900;
  event_count = 0;
  output = [];
  phase = running;
}

start-IsReady : IsReady start
unfolding new_market_engine
start-IsReady = record { good = quoted-IsGood; not_halted = refl; waiting = refl }

-- The bid, its redelivery and the cancellation.
abbrev messages : List (Env × InputEvent)
messages = (clock, create) ∷ (clock, create) ∷ (clock, take_back) ∷ []

run_answers_example :
    (rs' : RunState) × (run codec start messages ≡ some rs')
    × IsReady rs'
    × (positions rs'.output ≡ position create ∷ position create ∷ position take_back ∷ [])
run_answers_example = run_answers codec start messages start-IsReady (tt, (tt, (tt, tt)))

abbrev blocked : RunState
blocked = record start { engine = engine mode_blocked }

blocked-IsReady : IsReady blocked
unfolding new_market_engine
blocked-IsReady = record { good = quoted-IsGood; not_halted = refl; waiting = refl }

run_denies_example :
    (rs' : RunState) × (results : List MatchResult) × (run codec blocked messages ≡ some rs')
    × (rs'.engine.book ≡ quoted)
    × (rs'.engine.mode ≡ mode_blocked)
    × (rs'.output ≡ results)
    × AllDenied codec market_blocked blocked messages results
unfolding new_market_engine
run_denies_example = run_denies codec blocked messages market_blocked blocked-IsReady refl

-- The bid is taken, and its redelivery and the cancellation are still queued.
abbrev queued : List (Env × InputEvent)
queued = (clock, create) ∷ (clock, take_back) ∷ []

run_to_end_closes_example :
    (rs' : RunState) × (run_to_end codec clock start ((clock, create) ∷ []) queued ≡ some rs')
    × Ended codec queued rs'
run_to_end_closes_example =
    run_to_end_closes codec clock queued start ((clock, create) ∷ []) start-IsReady (tt, tt)
      (tt, (tt, tt))

receive_redelivered_example :
    (after : RunState) × (again : RunState) × (result : MatchResult) × (receive codec clock start
        create
      ≡ some after)
    × (receive codec clock after create ≡ some again)
    × (again ≡ emit after result)
    × (result.fills ≡ [])
    × (result.cancel_result ≡ none)
    × (result.source_position ≡ position create)
receive_redelivered_example = receive_redelivered codec clock clock start create start-IsReady tt

perform-Performed_example :
    Performed (engine mode_recovery) call_set_live (perform (engine mode_recovery) call_set_live)
perform-Performed_example = perform-Performed (engine mode_recovery) call_set_live

blocked_absorbs_example :
    (perform_all
      (engine mode_blocked)
      (call_set_live ∷ call_approve ∷ call_set_reconciling 4 ∷ [])).mode
    ≡ mode_blocked
unfolding new_market_engine
blocked_absorbs_example =
    blocked_absorbs (engine mode_blocked)
      (call_set_live ∷ call_approve ∷ call_set_reconciling 4 ∷ []) refl

not_approved : call_set_live ≢ call_approve
not_approved e = cc

reconciling_needs_approval_example :
    (perform_all (engine mode_reconciling) (call_set_live ∷ call_set_live ∷ [])).mode ≢ mode_live
unfolding new_market_engine
reconciling_needs_approval_example =
    reconciling_needs_approval (engine mode_reconciling) (call_set_live ∷ call_set_live ∷ [])
      (not_approved, (not_approved, tt)) (inl refl)

recovery_is_not_live : mode_recovery ≢ mode_live
recovery_is_not_live e = cc

abbrev halted : MarketEngine
halted = trigger_fatal_halt (engine mode_recovery)

halted_never_live_example :
    ((perform_all halted (call_set_live ∷ call_publish ∷ [])).is_fatal_halt ≡ true)
    × ((perform_all halted (call_set_live ∷ call_publish ∷ [])).mode ≢ mode_live)
unfolding new_market_engine trigger_fatal_halt
halted_never_live_example =
    halted_never_live halted (call_set_live ∷ call_publish ∷ []) refl recovery_is_not_live

published_agrees_example :
    (perform_all
      (new_market_engine config)
      (call_set_live ∷ call_set_blocked 0 ∷ [])).snapshot.state
    ≡ (perform_all (new_market_engine config) (call_set_live ∷ call_set_blocked 0 ∷ [])).mode
published_agrees_example = published_agrees config (call_set_live ∷ call_set_blocked 0 ∷ [])

-- A full ring of three slots whose oldest id, 6, stands in the second.
abbrev ring : EventRingBuffer
ring = record { slots = λ i. i + 5; head = 1; count = 3 }

ring-IsRing : IsRing 3 ring
ring-IsRing = record { positive = omega arith; head_in = omega arith; count_le = omega arith }

add_is_enqueue_example :
    IsRing 3 (add 3 ring 9).0
    × (contents 3 (add 3 ring 9).0 ≡ (enqueue 3 (contents 3 ring) 9).0)
    × ((add 3 ring 9).1 ≡ (enqueue 3 (contents 3 ring) 9).1)
add_is_enqueue_example = add_is_enqueue 3 ring 9 ring-IsRing

evicts_oldest : (add 3 ring 9).1 ≡ 6
unfolding add
evicts_oldest = refl

-- The barrier that the replayer sends at offset 30.
abbrev barrier : InputEvent
barrier = record { event_id = 0; body = recovery_barrier; topic = 0; partition = 3; offset = 30 }

abbrev replaying : RunState
replaying = record start { engine = engine mode_recovery }

replaying-IsReady : IsReady replaying
unfolding new_market_engine
replaying-IsReady = record { good = quoted-IsGood; not_halted = refl; waiting = refl }

drain_halts_on_barrier_example :
    (receive codec clock replaying barrier
      ≡ some (emit replaying (barrier_result replaying.engine barrier)))
    × (drain clock replaying barrier ≡ some (fail_stop replaying replaying.engine))
unfolding new_market_engine
drain_halts_on_barrier_example =
    drain_halts_on_barrier codec clock replaying barrier replaying-IsReady refl refl refl refl
