-- ===== src/Safety/Run.antt =====
-- `Run` over a list of messages: a result for each of them, in order, and a redelivered message changes
-- nothing.
use tradedrift.Base.{◌≡◌, refl, sym, ap, ◌∙◌, List, [], ◌∷◌, ◌++◌, none, some, ◌>>=◌, append-nil}
use tradedrift.OrderBook.{KafkaPosition}
use tradedrift.Matcher.Ops.{Env}
use tradedrift.Snapshot.Serialize.{Codec}
use tradedrift.Engine.State.{MatchResult, InputEvent}
use tradedrift.Engine.Apply.{position}
use tradedrift.Engine.Loop.{
  RunState, Phase, running, closed, stopped, receive, run, emit, empty_result,
}
use tradedrift.Matching.Depth.{get_depth_exact}
use tradedrift.Safety.Apply.{IsCommand}
use tradedrift.Safety.Loop.{
  IsReady, IsKnown, receive-Answered, receive_is_live, live-old, command-IsKnown,
  command-not_barrier,
}

abbrev pub positions : List MatchResult → List KafkaPosition
positions [] = []
positions (r ∷ rs) = r.source_position ∷ positions rs

abbrev pub asked : List (Env × InputEvent) → List KafkaPosition
asked [] = []
asked ((env, event) ∷ rest) = position event ∷ asked rest

abbrev pub AllKnown : List (Env × InputEvent) → Type 0
AllKnown [] = Unit
AllKnown ((env, event) ∷ rest) = IsKnown event.body × AllKnown rest

positions-snoc :
    (xs : List MatchResult) (r : MatchResult) (ys : List KafkaPosition)
    → positions (xs ++ r ∷ []) ++ ys ≡ positions xs ++ (r.source_position ∷ ys)
positions-snoc [] r ys = refl
positions-snoc (x ∷ xs) r ys = ap (λ t. x.source_position ∷ t) (positions-snoc xs r ys)

pub run-step :
    (codec : Codec) (rs : RunState) (env : Env) (event : InputEvent)
    (rest : List (Env × InputEvent))
    → rs.phase ≡ running
    → run codec rs ((env, event) ∷ rest)
      ≡ (receive codec env rs event >>= λ rs'. run codec rs' rest)
unfolding run
run-step codec rs env event rest w = go rs.phase w
  where
    go :
        (p : Phase)
        → p ≡ running
        → (elim p [
          | running ↦ (receive codec env rs event >>= λ rs'. run codec rs' rest)
          | closed ↦ some rs
          | stopped ↦ some rs
        ])
          ≡ (receive codec env rs event >>= λ rs'. run codec rs' rest)
    go running e = refl
    go closed e = cc
    go stopped e = cc

-- A loop that is ready over a well-formed, uncrossed book takes any list of messages of the three
-- types that the consumer and the replayer send to the end without a panic, is ready again over
-- such a book, and has sent results with the positions of the messages, one for each, in order.
pub run_answers :
    (codec : Codec) (rs : RunState) (events : List (Env × InputEvent))
    → IsReady rs
    → AllKnown events
    → (rs' : RunState) × (run codec rs events ≡ some rs')
      × IsReady rs'
      × (positions rs'.output ≡ positions rs.output ++ asked events)
unfolding run
run_answers codec rs [] r k = (rs, refl, r, sym (append-nil (positions rs.output)))
run_answers codec rs ((env, event) ∷ rest) r k =
    let a = receive-Answered codec env rs event r k.0 in
    let (rs', e, r', p) = run_answers codec a.after rest a.ready k.1 in
    (
      rs',
      run-step codec rs env event rest r.waiting ∙ rw (a.returns, e) refl,
      r',
      p
          ∙ ap (λ o. positions o ++ asked rest) a.sent
          ∙ positions-snoc rs.output a.result (asked rest)
          ∙ ap (λ q. positions rs.output ++ (q ∷ asked rest)) a.positioned,
    )

-- A command that a ready loop has taken and that is delivered again changes nothing but the
-- output, to which it adds one result without fills or cancellation for the same position.
pub receive_redelivered :
    (codec : Codec) (env env' : Env) (rs : RunState) (event : InputEvent)
    → IsReady rs
    → IsCommand event.body
    → (after : RunState) × (again : RunState) × (result : MatchResult) × (receive codec env rs event
        ≡ some after)
      × (receive codec env' after event ≡ some again)
      × (again ≡ emit after result)
      × (result.fills ≡ [])
      × (result.cancel_result ≡ none)
      × (result.source_position ≡ position event)
receive_redelivered codec env env' rs event r c =
    let a = receive-Answered codec env rs event r (command-IsKnown event.body c) in
    let d = get_depth_exact env' a.after.engine.book 20 a.ready.good.well_formed in
    let command = command-not_barrier event.body c in
    (
      a.after,
      emit a.after (empty_result event d.0),
      empty_result event d.0,
      a.returns,
      receive_is_live codec env' a.after event a.ready
          ∙ live-old codec env' a.after event d.0 command (a.applied command) d.1,
      refl,
      refl,
      refl,
      refl,
    )
