-- ===== src/Tests/Retries.antt =====
-- The retry loop at concrete inputs (command.go).
use processkit_go.Prelude.{
  pos, ℕ, zero, suc, ◌∷◌, ◌≤◌, Bool, true, false, none, some, [], ◌++◌, Bytes, codes, replicate,
  ◌≡◌, refl,
}
use processkit_go.Errors.{Error, Fallible, ok, err, start_error, errno}
use processkit_go.Result.{Result, Invocation, result_run}
use processkit_go.World.{sleep_ctx}
use processkit_go.Testkit.Recording.{Recorded, recording, beside, calls_of}
use processkit_go.Command.{Cmd, RetryPolicy, command, with_retry, invocation}
use processkit_go.Command.Retry.{max_attempts_of, attempt, retry_run}
use processkit_go.Command.Retry.Bounds.{retry_run_bounded}
use processkit_go.Command.Retry.Journal.{Journal}
use processkit_go.Command.BuiltIn.{System, job_runner, tracing, runner_or}
use processkit_go.Runner.{make_job, close_job, logged, output}
use processkit_go.Outcome.{unix}
use processkit_go.Log.{retrying}
use processkit_go.Tests.Chains.{fine}
use processkit_go.Tests.Samples.{calm_world, flaky, eagain}

abbrev policy : (Error → Bool) → RetryPolicy
policy retry_if = record { max_attempts = pos 3; backoff = pos 0; retry_if = some retry_if }

abbrev pub retried : Cmd
retried = record {
  program = codes "git";
  args = [];
  dir = [];
  env = none;
  ok_codes = [];
  timeout = pos 0;
  retry = some (policy (λ e. true));
  stdin = none;
  stdin_bytes = [];
  has_stdin_bytes = false;
  unchecked_in_pipe = false;
}

abbrev unretried : Cmd
unretried = record retried { retry = some (policy (λ e. false)) }

-- Two failures, then the third attempt succeeds.
third_time : retry_run calm_world flaky retried result_run 2 ≡ some (ok (codes "up"), 0)
unfolding retry_run processkit_go.Command.Retry.pause sleep_ctx processkit_go.Errors.errors_is
    result_run processkit_go.Result.err_of processkit_go.Result.success
    processkit_go.Result.stdout_text processkit_go.Result.Newlines.normalize_newlines
    processkit_go.Result.trim_right processkit_go.Outcome.code_of
third_time = refl

retry_run_bounded_example :
    (r : Fallible Bytes) × (w' : Recorded ℕ) × (k : ℕ) × (retry_run
        (beside calm_world)
        (recording flaky)
        retried
        result_run
        (2, [])
      ≡ some (r, w'))
    × (calls_of w' ≡ [] ++ replicate k (invocation retried))
    × (1 ≤ k)
    × (k ≤ max_attempts_of retried.retry)
retry_run_bounded_example = retry_run_bounded calm_world flaky retried result_run 2 []

-- The first failure is not one to retry.
not_accepted : retry_run calm_world flaky unretried result_run 2 ≡ some (err eagain, 1)
unfolding retry_run processkit_go.Errors.errors_is
not_accepted = refl

-- The spawn fails until the world has counted down to 0.
abbrev busy : System ℕ
busy inv zero = (fine, zero)
busy inv (suc n) = (record fine { start_err = some (errno 11) }, n)

-- Two failed starts, each with its job closed and the next attempt announced.
two_failures :
    (retry_run
      (tracing calm_world)
      (runner_or none (job_runner unix busy))
      retried
      result_run
      (2, []))
    ≡ some (
      ok (codes "ok"),
      (
        0,
        make_job
            ∷ close_job
            ∷ logged (retrying (codes "git") 2 3 (pos 0) (start_error (codes "git") (errno 11)))
            ∷ make_job
            ∷ close_job
            ∷ logged (retrying (codes "git") 3 3 (pos 0) (start_error (codes "git") (errno 11)))
            ∷ (output unix (invocation retried) fine).1,
      ),
    )
unfolding retry_run processkit_go.Command.Retry.pause sleep_ctx processkit_go.Errors.errors_is
    result_run processkit_go.Result.err_of processkit_go.Result.success
    processkit_go.Result.stdout_text processkit_go.Result.Newlines.normalize_newlines
    processkit_go.Result.trim_right processkit_go.Outcome.code_of tracing job_runner runner_or
    output processkit_go.Runner.supervise_child processkit_go.Runner.conclude
    processkit_go.Runner.cancelled_by processkit_go.Runner.resolve_outcome
    processkit_go.Runner.or_cancelled processkit_go.Runner.start_err_of
    processkit_go.Outcome.outcome_of processkit_go.Command.Retry.attempt invocation
two_failures = refl
