-- ===== src/Pipeline/Output.antt =====
-- `Pipeline` and `Pipeline.Output` of pipeline.go, over a script of what the operating system answers;
-- the calls that start, contain, wait for and tear down the stages, and the logged events, are a list of
-- actions.
use processkit_go.Prelude.{
  ℤ, pos, ltb_ℤ, ℕ, zero, suc, ltb, Bool, ◌&&◌, Option, none, some, List, [], ◌∷◌, ◌++◌, map, Bytes,
  codes, if◌then◌else◌, length,
}
use processkit_go.Outcome.{Mechanism, ProcessState, Platform, timed_out}
use processkit_go.Errors.{
  ContextError, Error, start_error, sentinel, err_too_few_stages, Fallible, ok, err,
}
use processkit_go.Result.{Result, Reader}
use processkit_go.Result.Newlines.{normalize_newlines}
use processkit_go.Command.{Cmd}
use processkit_go.Log.{LogEvent, pipeline_started, pipeline_finished}
use processkit_go.Runner.{cancelled_by, or_cancelled, resolve_outcome, start_err_of}
use processkit_go.Pipeline.{StageOutcome, pipefail}

-- What happens to one stage.
pub record StageScript : Type 0 where
  pub pipe_err : Option Error
  pub configure_err : Option Error
  pub start_err : Option Error
  pub assign_err : Option Error
  pub process_state : Option ProcessState
  -- `errors.Is(stageCtxs[i].Err(), context.DeadlineExceeded)` after the waits.
  pub deadline_exceeded : Bool
  pub stderr : Bytes

-- What happens to the chain.
pub record ChainScript : Type 0 where
  pub ctx_before : Option ContextError
  pub ctx_after_failure : Option ContextError
  pub ctx_after_wait : Option ContextError
  pub job_err : Option Error
  -- `errors.Is(runCtx.Err(), context.DeadlineExceeded)` after the waits.
  pub deadline_exceeded : Bool
  pub last_stdout : Bytes
  pub duration : ℤ
  pub mechanism : Mechanism
  pub path_dirs : List Bytes

abbrev pub Stage : Type 0
Stage = Cmd × StageScript

pub record Pipeline : Type 0 where
  pub stages : List Stage
  pub timeout : ℤ
  pub stdin : Option Reader

unfoldable pub pipe : List Stage → Pipeline
pipe stages = record { stages = stages; timeout = pos 0; stdin = none }

unfoldable pub with_timeout : ℤ → Pipeline → Pipeline
with_timeout d p = record p { timeout = d }

unfoldable pub with_stdin : Option Reader → Pipeline → Pipeline
with_stdin r p = record p { stdin = r }

-- `Pipeline.name`: the programs, joined by " | ".
unfoldable pub name_of : List Stage → Bytes
name_of [] = []
name_of ((c, s) ∷ []) = c.program
name_of ((c, s) ∷ next ∷ rest) = c.program ++ codes " | " ++ name_of (next ∷ rest)

-- The stages are numbered; `close_ends` closes the parent's pipe ends.
pub data ChainAction : Type 0 where
  started assigned waited : ℕ → ChainAction
  close_ends kill_chain close_chain : ChainAction
  chain_logged : LogEvent → ChainAction

-- How the body of the starting loop ends for one stage.
pub data Launch : Type 0 where
  not_started : Error → Launch
  uncontained : Error → Launch
  launched : Launch

-- Only a stage that is not the last one has a pipe.
abbrev pub pipe_err_of : List Stage → StageScript → Option Error
pipe_err_of [] s = none
pipe_err_of (next ∷ rest) s = s.pipe_err

unfoldable pub launch_stage : List Bytes → List Stage → Cmd → StageScript → Launch
launch_stage path_dirs rest c s = elim (pipe_err_of rest s) [
  | some e ↦ not_started (start_error c.program e)
  | none ↦ elim s.configure_err [
    | some e ↦ not_started (start_error c.program e)
    | none ↦ elim s.start_err [
      | some e ↦ not_started (start_err_of c.program path_dirs e)
      | none ↦ elim s.assign_err [
        | some e ↦ uncontained (start_error c.program e)
        | none ↦ launched
      ]
    ]
  ]
]

-- The error that ended the starting loop, the actions, and how many stages were started.
abbrev pub Launched : Type 0
Launched = Option Error × List ChainAction × ℕ

unfoldable pub after_launch : ℕ → Launch → Launched → Launched
after_launch i (not_started e) later = (some e, [], 0)
after_launch i (uncontained e) later = (some e, started i ∷ [], 1)
after_launch i launched (failed, actions, n) = (failed, started i ∷ assigned i ∷ actions, suc n)

-- The starting loop from stage `i` on.
unfoldable pub start_stages : List Bytes → ℕ → List Stage → Launched
start_stages path_dirs i [] = (none, [], 0)
start_stages path_dirs i ((c, s) ∷ rest) =
    after_launch i (launch_stage path_dirs rest c s) (start_stages path_dirs (suc i) rest)

-- The waits for `n` stages from stage `i` on, in one of the orders they may end in.
unfoldable pub waits : ℕ → ℕ → List ChainAction
waits i zero = []
waits i (suc n) = waited i ∷ waits (suc i) n

-- The stage's contribution to the fold.
abbrev pub stage_outcome : Platform → Stage → StageOutcome
stage_outcome platform (c, s) = record {
  program = c.program;
  args = c.args;
  outcome =
      resolve_outcome platform s.process_state (ltb_ℤ (pos 0) c.timeout && s.deadline_exceeded);
  stderr = normalize_newlines s.stderr;
  ok_codes = c.ok_codes;
  unchecked = c.unchecked_in_pipe;
}

-- The result of a chain that its own deadline ended.
abbrev pub timed_out_result : Pipeline → ChainScript → Result
timed_out_result p s = record {
  program = name_of p.stages;
  args = [];
  outcome = timed_out;
  stdout = [];
  stderr = [];
  duration = s.duration;
  ok_codes = [];
  mechanism = s.mechanism;
}

-- `pipefail` of the stages (there are at least two).
abbrev pub folded : Platform → List Stage → ChainScript → Option Result
folded platform [] s = none
folded platform (first ∷ rest) s = some (
    pipefail (stage_outcome platform first) (map (stage_outcome platform) rest) s.last_stdout
      s.mechanism s.duration)

abbrev pub too_few : Fallible Result
too_few = err (sentinel err_too_few_stages)

abbrev pub fold_result : Option Result → Fallible Result
fold_result none = too_few
fold_result (some r) = ok r

-- `p.timeout > 0`, and the chain's own deadline has passed.
abbrev pub chain_deadline : Pipeline → ChainScript → Bool
chain_deadline p s = ltb_ℤ (pos 0) p.timeout && s.deadline_exceeded

-- After the waits: the caller's cancellation, the chain's own deadline, the fold.
unfoldable pub conclude_chain : Platform → Pipeline → ChainScript → Option Error → Fallible Result
conclude_chain platform p s (some e) = err e
conclude_chain platform p s none =
    if chain_deadline p s
    then ok (timed_out_result p s)
    else fold_result (folded platform p.stages s)

-- The event of a chain that returns a result.
unfoldable pub finished : ChainScript → Fallible Result → List ChainAction
finished s (err e) = []
finished s (ok r) = chain_logged (pipeline_finished r.program r.outcome s.duration) ∷ []

-- `fail`, or the waits and the teardown, and the deferred `job.Close`.
unfoldable pub finish_chain :
    Platform → Pipeline → ChainScript → Launched → Fallible Result × List ChainAction
finish_chain platform p s (some e, actions, n) = (
  err (or_cancelled s.ctx_after_failure (name_of p.stages) e),
  actions ++ kill_chain ∷ close_ends ∷ (waits 0 n ++ close_chain ∷ []),
)
finish_chain platform p s (none, actions, n) =
    let res = conclude_chain platform p s (cancelled_by s.ctx_after_wait (name_of p.stages)) in
    (
      res,
      actions
          ++ chain_logged (pipeline_started (name_of p.stages) n)
            ∷ close_ends
            ∷ (waits 0 n ++ kill_chain ∷ (finished s res ++ close_chain ∷ [])),
    )

-- From `sys.NewJob` on, by its error.
unfoldable pub with_job :
    Platform → Pipeline → ChainScript → Option Error → Fallible Result × List ChainAction
with_job platform p s (some e) = (err (start_error (name_of p.stages) e), [])
with_job platform p s none = finish_chain platform p s (start_stages s.path_dirs 0 p.stages)

-- From the first look at the caller's context on.
unfoldable pub run_chain :
    Platform → Pipeline → ChainScript → Option Error → Fallible Result × List ChainAction
run_chain platform p s (some e) = (err e, [])
run_chain platform p s none = with_job platform p s s.job_err

-- `Pipeline.Output`.
unfoldable pub output : Platform → Pipeline → ChainScript → Fallible Result × List ChainAction
output platform p s =
    if ltb (length p.stages) 2
    then (too_few, [])
    else run_chain platform p s (cancelled_by s.ctx_before (name_of p.stages))
