-- ===== src/Tests/Chains.antt =====
-- Single runs and chains at concrete inputs (runner.go, pipeline.go).
use processkit_go.Prelude.{
  pos, Bool, true, false, none, some, List, [], ◌∷◌, Bytes, codes, All, ◌≡◌, ◌↔◌, refl,
}
use processkit_go.Outcome.{
  Outcome, mechanism_process_group, has_timed_out, Platform, unix, ProcessState,
}
use processkit_go.Errors.{ok, other}
use processkit_go.Result.{Result, success}
use processkit_go.Runner.{Script, output, deadline_fired}
use processkit_go.Runner.Laws.{replay, nothing_left, output_no_orphan, output_captured}
use processkit_go.Pipeline.{StageOutcome, pipefail, last_of}
use processkit_go.Pipeline.Fold.{IsFailure, Attribution, pipefail-Attribution}
use processkit_go.Pipeline.Success.{Exited, pipefail-success}
use processkit_go.Tests.Samples.{exit_with, killed_by, git_status}

abbrev stage : Bytes → Outcome → Bool → StageOutcome
stage program o unchecked = record {
  program = program;
  args = [];
  outcome = o;
  stderr = [];
  ok_codes = [];
  unchecked = unchecked;
}

-- A producer that SIGPIPE killed, a culprit, and a last stage that succeeded.
abbrev producer : StageOutcome
producer = stage (codes "yes") (killed_by (pos 13)) false

abbrev later : List StageOutcome
later =
    stage (codes "grep") (exit_with (pos 2)) false
    ∷ stage (codes "head") (exit_with (pos 0)) false
    ∷ []

grep_blamed : (pipefail producer later [] mechanism_process_group (pos 0)).program ≡ codes "grep"
unfolding pipefail processkit_go.Pipeline.failures processkit_go.Pipeline.first_culprit
    processkit_go.Pipeline.clean processkit_go.Pipeline.is_sigpipe processkit_go.Pipeline.last_of
    processkit_go.Outcome.code_of processkit_go.Outcome.signal_of
grep_blamed = refl

pipefail-Attribution_example :
    Attribution producer later
      (pipefail producer later (codes "out") mechanism_process_group (pos 0))
pipefail-Attribution_example =
    pipefail-Attribution producer later (codes "out") mechanism_process_group (pos 0)

pipefail-success_example :
    (success (pipefail producer later (codes "out") mechanism_process_group (pos 0)) ≡ true)
    ↔ (All (λ t. ¬ IsFailure t) (producer ∷ later) × Exited (last_of producer later))
pipefail-success_example =
    pipefail-success producer later (codes "out") mechanism_process_group (pos 0)

-- A run that exits with 0.
abbrev pub fine : Script
fine = record {
  ctx_before = none;
  ctx_after_failure = none;
  ctx_after_wait = none;
  job_err = none;
  configure_err = none;
  start_err = none;
  assign_err = none;
  wait_err = none;
  pid = pos 41;
  process_state = some (record { was_signaled = false; wait_signal = pos 0; exit_code = pos 0 });
  deadline_exceeded = false;
  stdout = codes "ok";
  stderr = [];
  duration = pos 5;
  mechanism = mechanism_process_group;
  path_dirs = [];
}

-- The child could not be contained.
abbrev uncontained : Script
uncontained = record fine { assign_err = some (other (codes "assign")) }

output_no_orphan_example : replay nothing_left (output unix git_status uncontained).1 ≡ nothing_left
output_no_orphan_example = output_no_orphan unix git_status uncontained

abbrev captured : Result
captured = record {
  program = codes "git";
  args = codes "status" ∷ [];
  outcome = exit_with (pos 0);
  stdout = codes "ok";
  stderr = [];
  duration = pos 5;
  ok_codes = pos 3 ∷ [];
  mechanism = mechanism_process_group;
}

fine_runs : (output unix git_status fine).0 ≡ ok captured
unfolding output processkit_go.Runner.cancelled_by processkit_go.Runner.conclude
    processkit_go.Runner.resolve_outcome processkit_go.Outcome.outcome_of
    processkit_go.Result.Newlines.normalize_newlines
fine_runs = refl

output_captured_example :
    (fine.ctx_before ≡ none)
    × (fine.ctx_after_wait ≡ none)
    × (has_timed_out captured.outcome ≡ deadline_fired git_status fine)
output_captured_example = output_captured unix git_status fine captured fine_runs
