-- ===== src/Command/BuiltIn.antt =====
-- The runner of a command, `Cmd.run` of command.go: one that was set, or the built-in `JobRunner` of
-- runner.go, which is Runner in a world whose operating system answers each run by a script.
use processkit_go.Prelude.{Option, none, some, List, [], ◌∷◌, ◌++◌, ◌≡◌, refl}
use processkit_go.Outcome.{Platform}
use processkit_go.Errors.{Fallible}
use processkit_go.Result.{Invocation, Result}
use processkit_go.World.{Runner, Surroundings}
use processkit_go.Runner.{Action, logged, Script, output}
use processkit_go.Runner.Laws.{replay, nothing_left, output_no_orphan}

-- The world, and what was done and logged in it so far.
abbrev pub Traced : Type 0 → Type 0
Traced W = W × List Action

-- How the operating system of a world answers a run.
abbrev pub System : Type 0 → Type 0
System W = Invocation → W → Script × W

module _ {W : Type 0} where
  -- `JobRunner`, with its log.
  unfoldable pub job_runner : Platform → System W → Runner (Traced W)
  job_runner platform system inv (w, done) =
      let (script, w') = system inv w in
      let (res, actions) = output platform inv script in (res, (w', done ++ actions))

  -- The context, the timers and the same log.
  unfoldable pub tracing : Surroundings W → Surroundings (Traced W)
  tracing s = record {
    ctx_err = λ w. s.ctx_err w.0;
    timer = λ d w. (let (fired, w') = s.timer d w.0 in (fired, (w', w.1)));
    log_event = λ e w. (w.0, w.1 ++ logged e ∷ []);
  }

-- One run by `JobRunner`, by some script of the operating system: what it does and what it returns. It
-- leaves nothing.
pub record Ran (platform : Platform) (inv : Invocation) (actions : List Action)
    (res : Fallible Result) : Type 0 where
  pub script : Script
  pub done : actions ≡ (output platform inv script).1
  pub answered : res ≡ (output platform inv script).0
  pub leaves_nothing : replay nothing_left actions ≡ nothing_left

pub output-Ran :
    (platform : Platform) (inv : Invocation) (s : Script)
    → Ran platform inv (output platform inv s).1 (output platform inv s).0
output-Ran platform inv s = record {
  script = s;
  done = refl;
  answered = refl;
  leaves_nothing = output_no_orphan platform inv s;
}

-- The field `runner`, or the built-in runner where it is nil.
unfoldable pub runner_or : {W : Type 0} → Option (Runner W) → Runner W → Runner W
runner_or none built_in = built_in
runner_or (some runner) built_in = runner
