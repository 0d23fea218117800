-- ===== src/Safety/Loop.antt =====
-- `Run`: what one message does to a loop that is ready.
use tradedrift.Base.{
  ℕ, ◌≡◌, refl, sym, subst, inl, inr, ◌∙◌, [], ◌∷◌, ◌++◌, Option, some, Bool, true, false, ◌==◌,
  leb, if◌then◌else◌, arith, Bool-cases,
}
use tradedrift.OrderBook.{DepthSnapshot}
use tradedrift.Matcher.Ops.{Env, get_depth}
use tradedrift.Snapshot.Serialize.{Codec}
use tradedrift.Engine.State.{
  Mode, mode_recovery, mode_live, mode_blocked, mode_reconciling, MarketEngine, MatchResult,
  InputEvent, EventBody, order_created, order_cancel, recovery_barrier, unknown,
  publish_atomic_snapshot,
}
use tradedrift.Engine.Apply.{position}
use tradedrift.Engine.Loop.{
  RunState, running, is_barrier, already_applied, is_duplicate, remember, settle_event, mutate,
  receive, emit, publish_if_live, empty_result, barrier_result, skip_to, receive_live,
}
use tradedrift.Matching.Depth.{get_depth_exact}
use tradedrift.Safety.Apply.{IsGood, IsCommand, apply_event-Replied}

-- A loop that waits for messages, over a good book.
pub record IsReady (rs : RunState) : Type 0 where
  pub good : IsGood rs.engine.book
  pub not_halted : rs.engine.is_fatal_halt ≡ false
  pub waiting : rs.phase ≡ running

-- The types that the consumer and the replayer send.
abbrev pub IsKnown : EventBody → Type 0
IsKnown (order_created p) = Unit
IsKnown (order_cancel p) = Unit
IsKnown recovery_barrier = Unit
IsKnown unknown = ⊥

-- The loop took the message and is ready again: it sent one result, for this message, and unless the
-- message was a barrier the message now counts as applied.
pub record Answered (rs : RunState) (event : InputEvent) (out : Option RunState) : Type 0 where
  pub after : RunState
  pub returns : out ≡ some after
  pub ready : IsReady after
  pub result : MatchResult
  pub sent : after.output ≡ rs.output ++ result ∷ []
  pub positioned : result.source_position ≡ position event
  pub applied :
      is_barrier event.body ≡ false
      → already_applied event.offset after.engine.last_applied_offset ≡ true

pub remember_keeps :
    (m : MarketEngine) (id : ℕ)
    → ((remember m id).book ≡ m.book)
      × ((remember m id).is_fatal_halt ≡ m.is_fatal_halt)
      × ((remember m id).mode ≡ m.mode)
unfolding remember
remember_keeps m id = elim (Bool-cases (id == 0)) [
  | inl e ↦ rw e (refl, refl, refl)
  | inr e ↦ rw e (refl, refl, refl)
]

pub publish_keeps :
    (mode : Mode) (m : MarketEngine)
    → ((publish_if_live mode m).book ≡ m.book)
      × ((publish_if_live mode m).is_fatal_halt ≡ m.is_fatal_halt)
      × ((publish_if_live mode m).last_applied_offset ≡ m.last_applied_offset)
      × ((publish_if_live mode m).mode ≡ m.mode)
unfolding publish_atomic_snapshot
publish_keeps mode_live m = (refl, refl, refl, refl)
publish_keeps mode_recovery m = (refl, refl, refl, refl)
publish_keeps mode_blocked m = (refl, refl, refl, refl)
publish_keeps mode_reconciling m = (refl, refl, refl, refl)

le_self : (n : ℕ) → leb n n ≡ true
le_self n = ground arith

pub if_false {ℓ} : {A : Type ℓ} (x y : A) (b : Bool) → b ≡ false → (if b then x else y) ≡ y
if_false x y true h = cc
if_false x y false h = refl

pub command-IsKnown : (b : EventBody) → IsCommand b → IsKnown b
command-IsKnown (order_created p) c = tt
command-IsKnown (order_cancel p) c = tt
command-IsKnown recovery_barrier c = absurd c
command-IsKnown unknown c = absurd c

pub command-not_barrier : (b : EventBody) → IsCommand b → is_barrier b ≡ false
command-not_barrier (order_created p) c = refl
command-not_barrier (order_cancel p) c = refl
command-not_barrier recovery_barrier c = absurd c
command-not_barrier unknown c = absurd c

pub live-old :
    (codec : Codec) (env : Env) (rs : RunState) (event : InputEvent) (depth : DepthSnapshot)
    → is_barrier event.body ≡ false
    → already_applied event.offset rs.engine.last_applied_offset ≡ true
    → get_depth env rs.engine.book 20 ≡ some depth
    → receive_live codec env rs event ≡ some (emit rs (empty_result event depth))
unfolding receive_live
live-old codec env rs event depth command old d = rw (command, old, d) refl

module _ (codec : Codec) (env : Env) (rs : RunState) (event : InputEvent) (r : IsReady rs) where
  mutate-Answered : IsCommand event.body → Answered rs event (mutate codec env rs event)
  unfolding mutate settle_event
  mutate-Answered c =
      let a = apply_event-Replied env rs.engine event r.good c in
      let m' = record rs.engine { book = a.book } in
      let k = remember_keeps m' event.event_id in
      let m'' = record (remember m' event.event_id) { last_applied_offset = some event.offset } in
      let p = publish_keeps m''.mode m'' in
      record {
        after = settle_event codec env rs event m' a.result;
        returns = rw a.returns refl;
        ready = record {
          good = rw (p.0, k.0) a.good;
          not_halted = p.1 ∙ k.1 ∙ r.not_halted;
          waiting = r.waiting;
        };
        result = _;
        sent = refl;
        positioned = a.positioned;
        applied = λ _. rw p.2 (le_self event.offset);
      }

  known-IsCommand : IsKnown event.body → is_barrier event.body ≡ false → IsCommand event.body
  known-IsCommand = go event.body
    where
      go : (b : EventBody) → IsKnown b → is_barrier b ≡ false → IsCommand b
      go (order_created p) k e = tt
      go (order_cancel p) k e = tt
      go recovery_barrier k e = cc
      go unknown k e = absurd k

  receive_live-Answered : IsKnown event.body → Answered rs event (receive_live codec env rs event)
  unfolding receive_live
  receive_live-Answered k =
      let d = get_depth_exact env rs.engine.book 20 r.good.well_formed in
      elim (Bool-cases (is_barrier event.body)) [
        | inl b ↦
            rw (b, receive_live)
              (record {
                after = emit rs (barrier_result rs.engine event);
                returns = refl;
                ready = record { good = r.good; not_halted = r.not_halted; waiting = r.waiting };
                result = barrier_result rs.engine event;
                sent = refl;
                positioned = refl;
                applied = λ e. cc;
              })
        | inr command ↦
            elim (Bool-cases (already_applied event.offset rs.engine.last_applied_offset)) [
              | inl old ↦
                  rw (command, old, receive_live)
                    (rw d.1 (record {
                      after = emit rs (empty_result event d.0);
                      returns = refl;
                      ready = record {
                        good = r.good;
                        not_halted = r.not_halted;
                        waiting = r.waiting;
                      };
                      result = empty_result event d.0;
                      sent = refl;
                      positioned = refl;
                      applied = λ _. old;
                    }))
              | inr fresh ↦ elim (Bool-cases (is_duplicate rs.engine event)) [
                | inl dup ↦
                    rw (command, fresh, dup, receive_live)
                      (rw d.1 (record {
                        after = emit (skip_to rs event.offset) (empty_result event d.0);
                        returns = refl;
                        ready = record {
                          good = r.good;
                          not_halted = r.not_halted;
                          waiting = r.waiting;
                        };
                        result = empty_result event d.0;
                        sent = refl;
                        positioned = refl;
                        applied = λ _. le_self event.offset;
                      }))
                | inr new ↦
                    rw (command, fresh, new, receive_live)
                      (mutate-Answered (known-IsCommand k command))
              ]
            ]
      ]

  pub receive_is_live : receive codec env rs event ≡ receive_live codec env rs event
  unfolding receive
  receive_is_live = if_false _ _ rs.engine.is_fatal_halt r.not_halted

  -- Every message that a ready loop takes is answered by exactly one result.
  pub receive-Answered : IsKnown event.body → Answered rs event (receive codec env rs event)
  receive-Answered k = subst (Answered rs event) (sym receive_is_live) (receive_live-Answered k)
