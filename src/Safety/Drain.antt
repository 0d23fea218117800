-- ===== src/Safety/Drain.antt =====
-- What the loop that drains the queue on shutdown does with a recovery barrier.
use tradedrift.Base.{◌≡◌, refl, ap, ◌∙◌, some, none, true, false}
use tradedrift.Matcher.Ops.{Env}
use tradedrift.Snapshot.Serialize.{Codec}
use tradedrift.Engine.State.{mode_recovery, MarketEngine, InputEvent, recovery_barrier}
use tradedrift.Engine.Apply.{apply_event, apply_in, apply_body}
use tradedrift.Engine.Loop.{
  RunState, receive, receive_live, drain, emit, barrier_result, fail_stop, already_applied,
  is_duplicate, is_barrier,
}
use tradedrift.Safety.Loop.{IsReady, receive_is_live}

barrier_applied :
    (env : Env) (m : MarketEngine) (event : InputEvent)
    → m.mode ≡ mode_recovery
    → event.body ≡ recovery_barrier
    → apply_event env m event ≡ some (m, none)
unfolding apply_event apply_in apply_body
barrier_applied env m event mode body =
    ap (λ x. apply_in x env m event) mode ∙ ap (λ b. apply_body env m event b) body

barrier_received :
    (codec : Codec) (env : Env) (rs : RunState) (event : InputEvent)
    → event.body ≡ recovery_barrier
    → receive_live codec env rs event ≡ some (emit rs (barrier_result rs.engine event))
unfolding receive_live
barrier_received codec env rs event body =
    let is : is_barrier event.body ≡ true = ap is_barrier body in rw is refl

-- A ready loop over an engine in recovery answers a recovery barrier, whose offset is not applied
-- yet and whose id is not a duplicate, with the barrier result, while the loop that drains the
-- queue on shutdown halts the engine on it and stops.
pub drain_halts_on_barrier :
    (codec : Codec) (env : Env) (rs : RunState) (event : InputEvent)
    → IsReady rs
    → rs.engine.mode ≡ mode_recovery
    → event.body ≡ recovery_barrier
    → already_applied event.offset rs.engine.last_applied_offset ≡ false
    → is_duplicate rs.engine event ≡ false
    → (receive codec env rs event ≡ some (emit rs (barrier_result rs.engine event)))
      × (drain env rs event ≡ some (fail_stop rs rs.engine))
unfolding drain
drain_halts_on_barrier codec env rs event r mode body fresh new = (
  receive_is_live codec env rs event r ∙ barrier_received codec env rs event body,
  rw (fresh, new) (rw (barrier_applied env rs.engine event mode body) refl),
)
