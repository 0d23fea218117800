-- ===== src/Safety/Denials.antt =====
-- `Run` over a list of messages with an engine that is blocked or reconciling: the book stays, and every
-- new command is refused.
use tradedrift.Base.{
  ◌≡◌, refl, sym, subst, inl, inr, ◌∙◌, List, [], ◌∷◌, ◌++◌, Option, some, none, Bool, true, false,
  ◌||◌, Bool-cases, ap, append-nil, append_assoc,
}
use tradedrift.OrderBook.{invalid_request, CancelledOrder, Reason}
use tradedrift.Matcher.Ops.{Env}
use tradedrift.Snapshot.Serialize.{Codec}
use tradedrift.Engine.State.{MatchResult, InputEvent}
use tradedrift.Engine.Apply.{position}
use tradedrift.Engine.Loop.{
  RunState, is_barrier, already_applied, is_duplicate, remember, settle_event, mutate, receive, run,
  emit, empty_result, barrier_result, skip_to, receive_live,
}
use tradedrift.Matching.Depth.{get_depth_exact}
use tradedrift.Safety.Rejects.{refuses, apply_event_rejects}
use tradedrift.Safety.Loop.{IsReady, receive_is_live, remember_keeps, publish_keeps}
use tradedrift.Safety.Run.{run-step}

-- The message is a barrier, or an offset or an id that the engine has seen.
abbrev pub is_passed_over : RunState → InputEvent → Bool
is_passed_over rs event =
    is_barrier event.body
    || already_applied event.offset rs.engine.last_applied_offset
    || is_duplicate rs.engine event

-- The cancellation in the result: none for a message that is passed over, else the refusal.
abbrev pub Refusal : Reason → Bool → Option CancelledOrder → Type 0
Refusal reason true c = c ≡ none
Refusal reason false c =
    (order : CancelledOrder) × (c ≡ some order)
    × (order.cancel_status ≡ invalid_request)
    × (order.reason ≡ reason)

abbrev pub Denied : Reason → RunState → InputEvent → MatchResult → Type 0
Denied reason rs event result =
    (result.fills ≡ [])
    × (result.source_position ≡ position event)
    × Refusal reason (is_passed_over rs event) result.cancel_result

-- One result for each message, which denies it in the state in which the loop took it.
abbrev pub AllDenied :
    Codec → Reason → RunState → List (Env × InputEvent) → List MatchResult → Type 0
AllDenied codec reason rs [] [] = Unit
AllDenied codec reason rs [] (r ∷ results) = ⊥
AllDenied codec reason rs (e ∷ rest) [] = ⊥
AllDenied codec reason rs ((env, event) ∷ rest) (r ∷ results) =
    Denied reason rs event r
    × ((after : RunState) × (receive codec env rs event ≡ some after)
        × AllDenied codec reason after rest results)

record Denial (reason : Reason) (rs : RunState) (event : InputEvent) (out : Option RunState)
    : Type 0 where
  after : RunState
  returns : out ≡ some after
  ready : IsReady after
  book_same : after.engine.book ≡ rs.engine.book
  mode_same : after.engine.mode ≡ rs.engine.mode
  result : MatchResult
  sent : after.output ≡ rs.output ++ result ∷ []
  denied : Denied reason rs event result

module _ (codec : Codec) (env : Env) (rs : RunState) (event : InputEvent) (reason : Reason)
    (r : IsReady rs) (e : refuses rs.engine.mode ≡ some reason) where
  mutate-Denial :
      is_passed_over rs event ≡ false → Denial reason rs event (mutate codec env rs event)
  unfolding mutate settle_event
  mutate-Denial fresh =
      let (res, c, returns, quiet, positioned, has, status, because) =
        apply_event_rejects env rs.engine event reason r.good e in
      let k = remember_keeps rs.engine event.event_id in
      let m = record (remember rs.engine event.event_id) {
        last_applied_offset = some event.offset;
      } in
      let p = publish_keeps m.mode m in
      record {
        after = settle_event codec env rs event rs.engine res;
        returns = rw returns refl;
        ready = record {
          good = rw (p.0, k.0) r.good;
          not_halted = p.1 ∙ k.1 ∙ r.not_halted;
          waiting = r.waiting;
        };
        book_same = p.0 ∙ k.0;
        mode_same = p.3 ∙ k.2;
        result = _;
        sent = refl;
        denied = (
          quiet,
          positioned,
          subst (λ b. Refusal reason b res.cancel_result) (sym fresh) (c, has, status, because),
        );
      }

  -- A message that is passed over gets a result without a cancellation.
  passed-Denial :
      (after : RunState) (result : MatchResult) (out : Option RunState)
      → out ≡ some after
      → after.engine.book ≡ rs.engine.book
      → after.engine.mode ≡ rs.engine.mode
      → IsReady after
      → after.output ≡ rs.output ++ result ∷ []
      → result.fills ≡ []
      → result.source_position ≡ position event
      → result.cancel_result ≡ none
      → is_passed_over rs event ≡ true
      → Denial reason rs event out
  passed-Denial after result out returns book mode ready sent quiet positioned empty passed =
      record {
        after = after;
        returns = returns;
        ready = ready;
        book_same = book;
        mode_same = mode;
        result = result;
        sent = sent;
        denied = (
          quiet,
          positioned,
          subst (λ b. Refusal reason b result.cancel_result) (sym passed) empty,
        );
      }

  still-IsReady : IsReady (skip_to rs event.offset)
  still-IsReady = record { good = r.good; not_halted = r.not_halted; waiting = r.waiting }

  receive_live-Denial : Denial reason rs event (receive_live codec env rs event)
  unfolding receive_live
  receive_live-Denial =
      let d = get_depth_exact env rs.engine.book 20 r.good.well_formed in
      elim (Bool-cases (is_barrier event.body)) [
        | inl b ↦
            passed-Denial (emit rs (barrier_result rs.engine event))
              (barrier_result rs.engine event) _ (rw b refl) refl refl
              (record { good = r.good; not_halted = r.not_halted; waiting = r.waiting }) refl refl
              refl refl (rw b refl)
        | inr command ↦
            elim (Bool-cases (already_applied event.offset rs.engine.last_applied_offset)) [
              | inl old ↦
                  passed-Denial (emit rs (empty_result event d.0)) (empty_result event d.0) _
                    (rw (command, old, d.1) refl) refl refl
                    (record { good = r.good; not_halted = r.not_halted; waiting = r.waiting }) refl
                    refl refl refl (rw (command, old) refl)
              | inr fresh ↦ elim (Bool-cases (is_duplicate rs.engine event)) [
                | inl dup ↦
                    passed-Denial (emit (skip_to rs event.offset) (empty_result event d.0))
                      (empty_result event d.0) _ (rw (command, fresh, dup, d.1) refl) refl refl
                      (record { good = r.good; not_halted = r.not_halted; waiting = r.waiting })
                      refl refl refl refl (rw (command, fresh, dup) refl)
                | inr new ↦
                    subst (Denial reason rs event) (rw (command, fresh, new) refl)
                      (mutate-Denial (rw (command, fresh, new) refl))
              ]
            ]
      ]

  receive-Denial : Denial reason rs event (receive codec env rs event)
  receive-Denial =
      subst (Denial reason rs event) (sym (receive_is_live codec env rs event r))
        receive_live-Denial

-- A loop that is ready over a well-formed, uncrossed book, with an engine in the blocked or the
-- reconciling mode, takes every list of messages to the end and keeps the book and the mode; it
-- sends one result for each message, with its position and no fill; the result of a barrier, of an
-- offset that is applied and of an id that is known has no cancellation, and every other has the
-- refusal with the mode's reason and the status for an invalid request.
pub run_denies :
    (codec : Codec) (rs : RunState) (events : List (Env × InputEvent)) (reason : Reason)
    → IsReady rs
    → refuses rs.engine.mode ≡ some reason
    → (rs' : RunState) × (results : List MatchResult) × (run codec rs events ≡ some rs')
      × (rs'.engine.book ≡ rs.engine.book)
      × (rs'.engine.mode ≡ rs.engine.mode)
      × (rs'.output ≡ rs.output ++ results)
      × AllDenied codec reason rs events results
unfolding run
run_denies codec rs [] reason r e = (rs, [], refl, refl, refl, sym (append-nil rs.output), tt)
run_denies codec rs ((env, event) ∷ rest) reason r e =
    let d = receive-Denial codec env rs event reason r e in
    let (rs', results, ran, book, mode, sent, all) =
      run_denies codec d.after rest reason d.ready (rw d.mode_same e) in
    (
      rs',
      d.result ∷ results,
      run-step codec rs env event rest r.waiting ∙ rw (d.returns, ran) refl,
      book ∙ d.book_same,
      mode ∙ d.mode_same,
      sent ∙ ap (λ o. o ++ results) d.sent ∙ append_assoc rs.output (d.result ∷ []) results,
      (d.denied, (d.after, d.returns, all)),
    )
