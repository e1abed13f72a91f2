-- ===== src/Supervisor/Run/Supervised.antt =====
-- All that `Supervisor.Run` of supervisor.go does through the built-in runner, from the first run of the
-- command to the report.
use processkit_go.Prelude.{ℤ, suc, ◌+◌, Option, none, some, Bytes, List, [], ◌∷◌, ◌++◌, ◌≡◌, refl}
use processkit_go.Outcome.{Platform}
use processkit_go.Errors.{Fallible, err, ContextError, cancel_error}
use processkit_go.Result.{Invocation, Result}
use processkit_go.World.{Runner}
use processkit_go.Runner.{Action, output}
use processkit_go.Floats.{Floats}
use processkit_go.Command.BuiltIn.{Traced, System, Ran, job_runner, tracing, runner_or}
use processkit_go.Testkit.Recording.{Recorded, recording, beside}
use processkit_go.Supervisor.{SupervisionOutcome, Supervisor}
use processkit_go.Supervisor.Run.{Env, Progress, verdict}
use processkit_go.Supervisor.Run.Recorded.{beside_env}
use processkit_go.Supervisor.Run.Logged.{Kept, stormy, restart, count_of, restarts}

-- The surroundings with a logger that adds to the trace.
unfoldable pub tracing_env : (f : Floats) {W : Type 0} → Env f W → Env f (Traced W)
unfolding tracing
tracing_env f env = record {
  surroundings = tracing env.surroundings;
  now = λ w. (let (t, w') = env.now w.0 in (t, (w', w.1)));
  rng = λ w. (let (x, w') = env.rng w.0 in (x, (w', w.1)));
}

-- What is done from this progress on, and the answer. The events of an incarnation that is not the last
-- are a storm pause, if there was one, then the restart with its number.
pub data Supervised (platform : Platform) (f : Floats) (s : Supervisor f) (program : Bytes)
    (inv : Invocation) : Progress f → List Action → Fallible SupervisionOutcome → Type 0 where
  ended :
      (p : Progress f) (c : Option ContextError)
      → Supervised platform f s program inv p [] (err (cancel_error program c))
  decided :
      (p : Progress f) (actions : List Action) (res : Fallible Result)
      (r : Fallible SupervisionOutcome)
      → Ran platform inv actions res
      → verdict f s p res ≡ some r
      → Supervised platform f s program inv p actions r
  pause_cut :
      (p : Progress f) (actions : List Action) (res : Fallible Result) (c : Option ContextError)
      (pause : ℤ)
      → Ran platform inv actions res
      → verdict f s p res ≡ none
      → Supervised platform f s program inv p
          (actions ++ stormy program (some pause))
          (err (cancel_error program c))
  delay_cut :
      (p : Progress f) (actions : List Action) (res : Fallible Result) (c : Option ContextError)
      (storm : Option ℤ) (delay : ℤ)
      → Ran platform inv actions res
      → verdict f s p res ≡ none
      → Supervised platform f s program inv p
          (actions ++ (stormy program storm ++ restart program (suc p.restarts) delay ∷ []))
          (err (cancel_error program c))
  went_on :
      (p p' : Progress f) (actions rest : List Action) (res : Fallible Result) (storm : Option ℤ)
      (delay : ℤ) (r : Fallible SupervisionOutcome)
      → Ran platform inv actions res
      → verdict f s p res ≡ none
      → p'.restarts ≡ suc p.restarts
      → p'.storm_pauses ≡ p.storm_pauses + count_of storm
      → Supervised platform f s program inv p' rest r
      → Supervised platform f s program inv p
          (actions ++ (stormy program storm ++ restart program (suc p.restarts) delay ∷ rest))
          r

module _ (platform : Platform) (f : Floats) (s : Supervisor f) {W : Type 0} (env : Env f W)
    (program : Bytes) (inv : Invocation) (runner : Runner W) (kept : Kept f env runner)
    (made : (w : W) → Ran platform inv (kept.ran inv w) (runner inv w).0) where
  open kept use {log, ran}

  -- What a run from these progress and log on adds to the log, with its answer.
  abbrev AddsIf : Progress f → List Action → Option (Fallible SupervisionOutcome × W) → Type 0
  AddsIf p before none = Unit
  AddsIf p before (some (r, w')) =
      (added : List Action) × (log w' ≡ before ++ added)
      × Supervised platform f s program inv p added r

module _ (f : Floats) {W : Type 0} (env : Env f W) (platform : Platform) (system : System W) where
  -- The built-in runner beside a recorder, which adds its runs to the trace.
  recorded_trace :
      Kept f
        (beside_env f (tracing_env f env))
        (recording (runner_or none (job_runner platform system)))
  unfolding beside_env tracing_env beside recording runner_or job_runner tracing
  recorded_trace = record {
    log = λ w. w.0.1;
    timer_keeps = λ d w. refl;
    now_keeps = λ w. refl;
    rng_keeps = λ w. refl;
    ran = λ inv w. (output platform inv (system inv w.0.0).0).1;
    run_adds = λ inv w. refl;
    event_adds = λ e w. refl;
  }
