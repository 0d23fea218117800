-- ===== src/Engine/Shutdown.antt =====
-- event_loop.go: what `Run` does when its context ends: it drains the queue and closes the output. A
-- queue that is closed ends the loop in the same way, with nothing left to drain.
use tradedrift.Base.{List, [], ◌∷◌, Option, some, if◌then◌else◌, ◌>>=◌}
use tradedrift.Matcher.Ops.{Env}
use tradedrift.Snapshot.Serialize.{Codec}
use tradedrift.Engine.State.{InputEvent}
use tradedrift.Engine.Loop.{RunState, running, closed, stopped, drain, final_snapshot, run}

-- The queued messages, one after the other, until one stops the loop.
unfoldable pub drain_all : RunState → List (Env × InputEvent) → Option RunState
unfolding drain
drain_all rs [] = some rs
drain_all rs ((env, event) ∷ rest) = elim rs.phase [
  | running ↦ (drain env rs event >>= λ rs'. drain_all rs' rest)
  | closed ↦ some rs
  | stopped ↦ some rs
]

-- The final snapshot of a drained queue; a drain that has stopped gets none.
unfoldable pub close_drained : Codec → Env → RunState → Option RunState
unfolding final_snapshot
close_drained codec env rs = elim rs.phase [
  | running ↦ final_snapshot codec env rs
  | closed ↦ some rs
  | stopped ↦ some rs
]

-- `ctx.Done()`, with the messages that are in the queue; a halted engine drains none.
unfoldable pub shut_down : Codec → Env → RunState → List (Env × InputEvent) → Option RunState
unfolding drain_all close_drained
shut_down codec env rs queue =
    if rs.engine.is_fatal_halt
    then some (record rs { phase = closed })
    else (drain_all rs queue >>= λ rs'. close_drained codec env rs')

-- `Run`: the messages that the loop takes, and then the end of its context, if it still runs.
unfoldable pub run_to_end :
    Codec → Env → RunState → List (Env × InputEvent) → List (Env × InputEvent) → Option RunState
unfolding run shut_down
run_to_end codec env rs taken queue =
    (run codec rs taken >>= λ rs'. elim rs'.phase [
      | running ↦ shut_down codec env rs' queue
      | closed ↦ some rs'
      | stopped ↦ some rs'
    ])
