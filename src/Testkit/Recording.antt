-- ===== src/Testkit/Recording.antt =====
-- `RecordingRunner` of processkittest/doubles.go: it records each invocation, then delegates.
-- `cloneInvocation` copies slices, which in the model are values already.
use processkit_go.Prelude.{Option, none, some, List, [], ◌∷◌, ◌++◌}
use processkit_go.Result.{Invocation}
use processkit_go.World.{Runner, Surroundings}

-- The world of a recorder: that of the inner runner, and the calls so far.
abbrev pub Recorded : Type 0 → Type 0
Recorded W = W × List Invocation

module _ {W : Type 0} where
  -- `RecordingRunner.Output`.
  unfoldable pub recording : Runner W → Runner (Recorded W)
  recording inner inv (w, calls) = let (res, w') = inner inv w in (res, (w', calls ++ inv ∷ []))

  -- `RecordingRunner.Calls`.
  unfoldable pub calls_of : Recorded W → List Invocation
  calls_of (w, calls) = calls

  -- `RecordingRunner.OnlyCall`, which panics (`none`) unless there is exactly one call.
  unfoldable pub only_call : Recorded W → Option Invocation
  only_call (w, inv ∷ []) = some inv
  only_call (w, []) = none
  only_call (w, inv ∷ inv' ∷ rest) = none

  -- A context, timers and loggers are not changed by recording.
  unfoldable pub beside : Surroundings W → Surroundings (Recorded W)
  beside s = record {
    ctx_err = λ w. s.ctx_err w.0;
    timer = λ d w. (let (fired, w') = s.timer d w.0 in (fired, (w', w.1)));
    log_event = λ e w. (s.log_event e w.0, w.1);
  }
