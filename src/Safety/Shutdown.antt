-- ===== src/Safety/Shutdown.antt =====
-- `Run` to its end: the messages that it takes, the drain of the queue and the final snapshot.
use tradedrift.Base.{
  ℕ, ◌≡◌, refl, inl, inr, ◌∙◌, List, [], ◌∷◌, ◌++◌, Option, some, none, true, false, arith,
  Bool-cases, Option-cases, ◌>>=◌,
}
use tradedrift.OrderBook.{DepthSnapshot}
use tradedrift.Matcher.Ops.{Env}
use tradedrift.Snapshot.Serialize.{Codec, serialize}
use tradedrift.Engine.State.{MatchResult, InputEvent}
use tradedrift.Engine.Loop.{
  RunState, Phase, running, closed, stopped, already_applied, is_duplicate, remember, skip_to,
  drain, final_snapshot,
}
use tradedrift.Engine.Shutdown.{drain_all, close_drained, shut_down, run_to_end}
use tradedrift.Matching.Depth.{get_depth_exact}
use tradedrift.Safety.Apply.{IsGood, IsCommand, apply_event-Replied}
use tradedrift.Safety.Loop.{IsReady, remember_keeps, if_false}
use tradedrift.Safety.Run.{AllKnown, run_answers}

abbrev pub AllCommands : List (Env × InputEvent) → Type 0
AllCommands [] = Unit
AllCommands ((env, event) ∷ rest) = IsCommand event.body × AllCommands rest

-- The offset of every message counts as applied.
abbrev pub AllApplied : Option ℕ → List (Env × InputEvent) → Type 0
AllApplied last [] = Unit
AllApplied last ((env, event) ∷ rest) =
    (already_applied event.offset last ≡ true) × AllApplied last rest

-- What counts as applied before does so after.
abbrev Forward : Option ℕ → Option ℕ → Type 0
Forward last next = (k : ℕ) → already_applied k last ≡ true → already_applied k next ≡ true

Forward-to :
    (last : Option ℕ) (offset : ℕ)
    → already_applied offset last ≡ false
    → Forward last (some offset)
Forward-to none offset fresh k h = cc
Forward-to (some l) offset fresh k h = ground arith

applied_self : (n : ℕ) → already_applied n (some n) ≡ true
applied_self n = ground arith

record Drained (rs : RunState) (event : InputEvent) (out : Option RunState) : Type 0 where
  after : RunState
  returns : out ≡ some after
  ready : IsReady after
  forward : Forward rs.engine.last_applied_offset after.engine.last_applied_offset
  applied : already_applied event.offset after.engine.last_applied_offset ≡ true

drain-Drained :
    (env : Env) (rs : RunState) (event : InputEvent)
    → IsReady rs
    → IsCommand event.body
    → Drained rs event (drain env rs event)
unfolding drain
drain-Drained env rs event r c =
    elim (Bool-cases (already_applied event.offset rs.engine.last_applied_offset)) [
      | inl old ↦
          rw old
            (record { after = rs; returns = refl; ready = r; forward = λ k h. h; applied = old })
      | inr fresh ↦
          let forward = Forward-to rs.engine.last_applied_offset event.offset fresh in
          elim (Bool-cases (is_duplicate rs.engine event)) [
            | inl dup ↦
                rw (fresh, dup)
                  (record {
                    after = skip_to rs event.offset;
                    returns = refl;
                    ready = record {
                      good = r.good;
                      not_halted = r.not_halted;
                      waiting = r.waiting;
                    };
                    forward = forward;
                    applied = applied_self event.offset;
                  })
            | inr new ↦
                let a = apply_event-Replied env rs.engine event r.good c in
                let m = record rs.engine { book = a.book } in
                let k = remember_keeps m event.event_id in
                rw (fresh, new)
                  (rw a.returns (record {
                    after = record rs {
                      engine = record (remember m event.event_id) {
                        last_applied_offset = some event.offset;
                      };
                      output = rs.output ++ a.result ∷ [];
                    };
                    returns = refl;
                    ready = record {
                      good = rw k.0 a.good;
                      not_halted = k.1 ∙ r.not_halted;
                      waiting = r.waiting;
                    };
                    forward = forward;
                    applied = applied_self event.offset;
                  }))
          ]
    ]

-- A turn of a loop that runs, written out.
while_running :
    {A : Type 0} (p : Phase) (x y : A)
    → p ≡ running
    → (elim p [ running ↦ x | closed ↦ y | stopped ↦ y ]) ≡ x
while_running running x y e = refl
while_running closed x y e = cc
while_running stopped x y e = cc

Forward-applied :
    (last next : Option ℕ) (queue : List (Env × InputEvent))
    → Forward last next
    → AllApplied last queue
    → AllApplied next queue
Forward-applied last next [] f h = tt
Forward-applied last next ((env, event) ∷ rest) f h =
    (f event.offset h.0, Forward-applied last next rest f h.1)

record Emptied (rs : RunState) (queue : List (Env × InputEvent)) : Type 0 where
  after : RunState
  returns : drain_all rs queue ≡ some after
  ready : IsReady after
  forward : Forward rs.engine.last_applied_offset after.engine.last_applied_offset
  applied : AllApplied after.engine.last_applied_offset queue

drain_all-Emptied :
    (rs : RunState) (queue : List (Env × InputEvent))
    → IsReady rs
    → AllCommands queue
    → Emptied rs queue
unfolding drain_all
drain_all-Emptied rs [] r c = record {
  after = rs;
  returns = refl;
  ready = r;
  forward = λ k h. h;
  applied = tt;
}
drain_all-Emptied rs ((env, event) ∷ rest) r c =
    let d = drain-Drained env rs event r c.0 in
    let e = drain_all-Emptied d.after rest d.ready c.1 in
    record {
      after = e.after;
      returns =
          while_running rs.phase (drain env rs event >>= λ rs'. drain_all rs' rest) (some rs)
            r.waiting
          ∙ rw (d.returns, e.returns) refl;
      ready = e.ready;
      forward = λ k h. e.forward k (d.forward k h);
      applied = (e.forward event.offset d.applied, e.applied);
    }

-- The last result has the snapshot of the book at the last applied offset, if there is one.
abbrev pub Sealed : Codec → RunState → Option ℕ → Type 0
Sealed codec rs none = Unit
Sealed codec rs (some offset) =
    (earlier : List MatchResult) × (last : MatchResult) × (rs.output ≡ earlier ++ last ∷ [])
    × (last.snapshot ≡ some (serialize codec rs.engine.book rs.engine.config.partition offset))
    × (last.source_position.offset ≡ offset)

-- A loop that closed its output after the final snapshot.
pub record Ended (codec : Codec) (queue : List (Env × InputEvent)) (rs : RunState) : Type 0 where
  pub finished : rs.phase ≡ closed
  pub good : IsGood rs.engine.book
  pub not_halted : rs.engine.is_fatal_halt ≡ false
  pub applied : AllApplied rs.engine.last_applied_offset queue
  pub last_is_snapshot : Sealed codec rs rs.engine.last_applied_offset

module _ (codec : Codec) where
  abbrev sealing : RunState → DepthSnapshot → ℕ → MatchResult
  sealing rs depth offset = record {
    fills = [];
    cancel_result = none;
    depth_snapshot = depth;
    source_position = record { topic = 0; partition = rs.engine.config.partition; offset = offset };
    snapshot = some (serialize codec rs.engine.book rs.engine.config.partition offset);
    barrier_reached = false;
    barrier_offset = 0;
  }

  abbrev sealed_run : RunState → DepthSnapshot → ℕ → RunState
  sealed_run rs depth offset = record rs {
    output = rs.output ++ sealing rs depth offset ∷ [];
    phase = closed;
  }

module _ (codec : Codec) (env : Env) (queue : List (Env × InputEvent)) where
  final_snapshot-Ended :
      (rs : RunState)
      → IsReady rs
      → AllApplied rs.engine.last_applied_offset queue
      → (rs' : RunState) × (final_snapshot codec env rs ≡ some rs') × Ended codec queue rs'
  unfolding final_snapshot
  final_snapshot-Ended rs r applied =
      let d = get_depth_exact env rs.engine.book 20 r.good.well_formed in
      elim (Option-cases rs.engine.last_applied_offset) [
        | inl e ↦ (
          record rs { phase = closed },
          rw e refl,
          record {
            finished = refl;
            good = r.good;
            not_halted = r.not_halted;
            applied = applied;
            last_is_snapshot = rw e tt;
          },
        )
        | inr (offset, e) ↦ (
          sealed_run codec rs d.0 offset,
          rw (e, d.1) refl,
          record {
            finished = refl;
            good = r.good;
            not_halted = r.not_halted;
            applied = applied;
            last_is_snapshot = rw e (rs.output, sealing codec rs d.0 offset, refl, refl, refl);
          },
        )
      ]

  drained :
      (out : Option RunState) (after : RunState)
      → out ≡ some after
      → (out >>= λ x. close_drained codec env x) ≡ close_drained codec env after
  drained out after e = rw e refl

  shut_down-Ended :
      (rs : RunState)
      → IsReady rs
      → AllCommands queue
      → (rs' : RunState) × (shut_down codec env rs queue ≡ some rs') × Ended codec queue rs'
  unfolding shut_down close_drained
  shut_down-Ended rs r c =
      let d = drain_all-Emptied rs queue r c in
      let (rs', e, ended) = final_snapshot-Ended d.after d.ready d.applied in
      (
        rs',
        if_false (some (record rs { phase = closed }))
              (drain_all rs queue >>= λ x. close_drained codec env x) rs.engine.is_fatal_halt
              r.not_halted
            ∙ drained (drain_all rs queue) d.after d.returns
            ∙ while_running d.after.phase (final_snapshot codec env d.after) (some d.after)
                d.ready.waiting
            ∙ e,
        ended,
      )

  -- A loop that is ready over a well-formed, uncrossed book, that takes any list of messages of
  -- the three types that the consumer and the replayer send, and whose context then ends with any
  -- list of commands in the queue, returns without a panic or a halt and closes its output; the
  -- book is then well formed and uncrossed, the offset of every command of the queue counts as
  -- applied, and if an offset is applied, the last result has that offset and a snapshot of the
  -- final book.
  pub run_to_end_closes :
      (rs : RunState) (taken : List (Env × InputEvent))
      → IsReady rs
      → AllKnown taken
      → AllCommands queue
      → (rs' : RunState) × (run_to_end codec env rs taken queue ≡ some rs') × Ended codec queue rs'
  unfolding run_to_end
  run_to_end_closes rs taken r k c =
      let (mid, e, ready, sent) = run_answers codec rs taken r k in
      let (rs', e', ended) = shut_down-Ended mid ready c in
      (
        rs',
        rw e
            (while_running mid.phase (shut_down codec env mid queue) (some mid) ready.waiting ∙ e'),
        ended,
      )
