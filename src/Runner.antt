-- ===== src/Runner.antt =====
-- runner.go: `JobRunner.Output`, one run inside a job of its own.
-- What the operating system answers is a script: an error (or none) for each step that can fail, the
-- process state, whether the run's own deadline fired, and `ctx.Err()` of the caller's context at
-- each place where the source reads it. The calls that contain, wait for and tear down the process
-- are recorded as a list of actions, and so are the events that the run logs.
pub mod Laws
pub mod Lifecycle
pub mod Secrecy
use processkit_go.Prelude.{
  ℤ, pos, ltb_ℤ, ℕ, Bool, true, false, not, ◌&&◌, Option, none, some, is_some, List, [], ◌∷◌, ◌++◌,
  Bytes, codes, bytes_eq, any, ◌||◌, ◌==◌, if◌then◌else◌,
}
use processkit_go.Outcome.{
  Outcome, Mechanism, ProcessState, Platform, outcome_of, exited, timed_out,
}
use processkit_go.Errors.{
  Error, ContextError, cancel_error, not_found_error, start_error, Fallible, ok, err, errors_is,
  exec_err_not_found,
}
use processkit_go.Log.{LogEvent, child_spawned, process_exited, cancellation_fired, timeout_elapsed}
use processkit_go.Result.{Invocation, Result}
use processkit_go.Result.Newlines.{normalize_newlines}

pub data Action : Type 0 where
  make_job start assign assign_failed wait kill_job close_job : Action
  logged : LogEvent → Action

pub record Script : Type 0 where
  -- `parent.Err()` before the spawn, after a failed Start or Assign, and after Wait.
  pub ctx_before : Option ContextError
  pub ctx_after_failure : Option ContextError
  pub ctx_after_wait : Option ContextError
  -- The errors of NewJob, Configure, Start, Assign and Wait.
  pub job_err : Option Error
  pub configure_err : Option Error
  pub start_err : Option Error
  pub assign_err : Option Error
  pub wait_err : Option Error
  pub pid : ℤ
  pub process_state : Option ProcessState
  -- `errors.Is(runCtx.Err(), context.DeadlineExceeded)` after Wait.
  pub deadline_exceeded : Bool
  pub stdout : Bytes
  pub stderr : Bytes
  pub duration : ℤ
  pub mechanism : Mechanism
  -- `filepath.SplitList(os.Getenv("PATH"))`, empty if PATH is.
  pub path_dirs : List Bytes

-- `cancelledBy`.
unfoldable pub cancelled_by : Option ContextError → Bytes → Option Error
cancelled_by none program = none
cancelled_by (some c) program = some (cancel_error program (some c))

-- `resolveOutcome`: the run's own deadline, then the process state, then a clean exit.
unfoldable pub resolve_outcome : Platform → Option ProcessState → Bool → Outcome
resolve_outcome platform ps true = timed_out
resolve_outcome platform (some ps) false = outcome_of platform ps
resolve_outcome platform none false = exited (pos 0)

-- `strings.ContainsAny(program, "/\\")`: a path is not looked up.
unfoldable pub searched_path : Bytes → List Bytes → List Bytes
searched_path program path_dirs =
    if any (λ c. c == b'/' || c == b'\\') program then [] else path_dirs

-- `startErr`.
unfoldable pub start_err_of : Bytes → List Bytes → Error → Error
start_err_of program path_dirs e =
    if errors_is e exec_err_not_found
    then not_found_error program (searched_path program path_dirs)
    else start_error program e

-- `err` unless the caller's context has ended, which is a cancellation instead.
unfoldable pub or_cancelled : Option ContextError → Bytes → Error → Error
or_cancelled none program e = e
or_cancelled (some c) program e = cancel_error program (some c)

abbrev pub deadline_fired : Invocation → Script → Bool
deadline_fired inv s = ltb_ℤ (pos 0) inv.timeout && s.deadline_exceeded

abbrev captured : Platform → Invocation → Script → Result
captured platform inv s = record {
  program = inv.program;
  args = inv.args;
  outcome = resolve_outcome platform s.process_state (deadline_fired inv s);
  stdout = s.stdout;
  stderr = normalize_newlines s.stderr;
  duration = s.duration;
  ok_codes = inv.ok_codes;
  mechanism = s.mechanism;
}

-- `cmd.ProcessState == nil && waitErr != nil`, of which the wait error is kept.
abbrev lost_state : Script → Option Error
lost_state s = elim s.process_state [ none ↦ s.wait_err | some _ ↦ none ]

-- After Wait: the caller's cancellation, the run's own deadline, a lost process, the outcome.
unfoldable pub conclude : Platform → Invocation → Script → Fallible Result × List Action
conclude platform inv s =
    let ended = logged (process_exited inv.program (captured platform inv s).outcome s.duration) in
    elim (cancelled_by s.ctx_after_wait inv.program) [
      | some e ↦ (err e, logged (cancellation_fired inv.program) ∷ [])
      | none ↦
          if deadline_fired inv s
          then (
            ok (captured platform inv s),
            logged (timeout_elapsed inv.program inv.timeout) ∷ ended ∷ [],
          )
          else elim (lost_state s) [
            | some e ↦ (err (start_error inv.program e), [])
            | none ↦ (ok (captured platform inv s), ended ∷ [])
          ]
    ]

-- From Start on, with the job open: `defer job.Close()` is the last action.
unfoldable pub supervise_child : Platform → Invocation → Script → Fallible Result × List Action
supervise_child platform inv s = elim s.start_err [
  | some e ↦ (
    err (or_cancelled s.ctx_after_failure inv.program (start_err_of inv.program s.path_dirs e)),
    close_job ∷ [],
  )
  | none ↦ elim s.assign_err [
    | some e ↦ (
      err (or_cancelled s.ctx_after_failure inv.program (start_error inv.program e)),
      start ∷ assign_failed ∷ kill_job ∷ wait ∷ close_job ∷ [],
    )
    | none ↦
        let (res, events) = conclude platform inv s in
        (
          res,
          start
              ∷ assign
              ∷ logged (child_spawned inv.program s.pid s.mechanism)
              ∷ wait
              ∷ kill_job
              ∷ (events ++ close_job ∷ []),
        )
  ]
]

-- `JobRunner.Output`.
unfoldable pub output : Platform → Invocation → Script → Fallible Result × List Action
unfolding supervise_child
output platform inv s = elim (cancelled_by s.ctx_before inv.program) [
  | some e ↦ (err e, [])
  | none ↦ elim s.job_err [
    | some e ↦ (err (start_error inv.program e), [])
    | none ↦ elim s.configure_err [
      | some e ↦ (err (start_error inv.program e), make_job ∷ close_job ∷ [])
      | none ↦ let (res, actions) = supervise_child platform inv s in (res, make_job ∷ actions)
    ]
  ]
]
