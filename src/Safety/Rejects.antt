-- ===== src/Safety/Rejects.antt =====
-- `applyEvent` in the blocked and in the reconciling mode.
use tradedrift.Base.{◌≡◌, refl, subst, [], Option, none, some, false, arith}
use tradedrift.OrderBook.{
  invalid_request, CancelledOrder, Reason, market_blocked, market_reconciling,
}
use tradedrift.Matcher.Ops.{Env}
use tradedrift.Engine.State.{
  Mode, mode_recovery, mode_live, mode_blocked, mode_reconciling, MarketEngine, MatchResult,
  InputEvent, EventBody, order_created, order_cancel, recovery_barrier, unknown,
}
use tradedrift.Engine.Apply.{position, reply, reject, apply_event, apply_in, refusal}
use tradedrift.Matching.Depth.{get_depth_exact}
use tradedrift.Safety.Apply.{IsGood}

-- The modes that refuse commands, with the reason that they give.
abbrev pub refuses : Mode → Option Reason
refuses mode_blocked = some market_blocked
refuses mode_reconciling = some market_reconciling
refuses mode_recovery = none
refuses mode_live = none

module _ (env : Env) (m : MarketEngine) (event : InputEvent) where
  refusal_status :
      (reason : Reason) (body : EventBody)
      → (refusal env m event reason body).cancel_status ≡ invalid_request
  refusal_status reason (order_created p) = refl
  refusal_status reason (order_cancel p) = refl
  refusal_status reason recovery_barrier = refl
  refusal_status reason unknown = refl

  abbrev pub Rejected : Reason → Option (MarketEngine × Option MatchResult) → Type 0
  Rejected reason out =
      (result : MatchResult) × (c : CancelledOrder) × (out ≡ some (m, some result))
      × (result.fills ≡ [])
      × (result.source_position ≡ position event)
      × (result.cancel_result ≡ some c)
      × (c.cancel_status ≡ invalid_request)
      × (c.reason ≡ reason)

  reject-Rejected : (reason : Reason) → IsGood m.book → Rejected reason (reject env m event reason)
  unfolding reject reply
  reject-Rejected reason g =
      let d = get_depth_exact env m.book 20 g.well_formed in
      (
        record {
          fills = [];
          cancel_result = some (refusal env m event reason event.body);
          depth_snapshot = d.0;
          source_position = position event;
          snapshot = none;
          barrier_reached = false;
          barrier_offset = 0;
        },
        refusal env m event reason event.body,
        rw d.1 refl,
        refl,
        refl,
        refl,
        refusal_status reason event.body,
        refusal_reason reason event.body,
      )
    where
      refusal_reason : (r : Reason) (body : EventBody) → (refusal env m event r body).reason ≡ r
      refusal_reason r (order_created p) = refl
      refusal_reason r (order_cancel p) = refl
      refusal_reason r recovery_barrier = refl
      refusal_reason r unknown = refl

  rejects_in :
      (mode : Mode) (reason : Reason)
      → IsGood m.book
      → refuses mode ≡ some reason
      → Rejected reason (apply_in mode env m event)
  unfolding apply_in
  rejects_in mode_blocked reason g e =
      let r : market_blocked ≡ reason = ground arith in
      subst (λ x. Rejected x (reject env m event market_blocked)) r
        (reject-Rejected market_blocked g)
  rejects_in mode_reconciling reason g e =
      let r : market_reconciling ≡ reason = ground arith in
      subst (λ x. Rejected x (reject env m event market_reconciling)) r
        (reject-Rejected market_reconciling g)
  rejects_in mode_recovery reason g e = absurd (clash e)
    where
      clash : none ≡ some reason → ⊥
      clash e' = cc
  rejects_in mode_live reason g e = absurd (clash e)
    where
      clash : none ≡ some reason → ⊥
      clash e' = cc

  -- `applyEvent` of such an engine answers with the refusal and does not change the engine.
  pub apply_event_rejects :
      (reason : Reason)
      → IsGood m.book
      → refuses m.mode ≡ some reason
      → Rejected reason (apply_event env m event)
  unfolding apply_event
  apply_event_rejects reason g e = rejects_in m.mode reason g e
