-- ===== src/Tests/Supervision.antt =====
-- Supervision at concrete inputs (supervisor.go). The floats are integers here.
use processkit_go.Prelude.{
  ℤ, pos, pos_part, leb_ℤ, ltb_ℤ, ◌+ℤ◌, ◌*◌, ◌^◌, ◌/◌, ℕ, zero, suc, ◌≤◌, false, none, some, [],
  ◌++◌, codes, replicate, ◌≡◌, refl,
}
use processkit_go.Errors.{Fallible, ok, errno}
use processkit_go.Result.{Invocation, Result}
use processkit_go.Testkit.Recording.{Recorded, recording, calls_of}
use processkit_go.Floats.{Floats}
use processkit_go.Supervisor.{
  Supervisor, SupervisionOutcome, restart_on_crash, stopped_policy_satisfied,
}
use processkit_go.Supervisor.Run.{Env, run}
use processkit_go.Supervisor.Run.Recorded.{beside_env}
use processkit_go.Supervisor.Run.Calls.{ReportsRuns, run_within_budget}
use processkit_go.Supervisor.Run.Supervised.{Supervised}
use processkit_go.Command.BuiltIn.{System}
use processkit_go.Tests.Chains.{fine}
use processkit_go.Tests.Samples.{calm_world, crashing, git_status, result_with, exit_with}

-- Whole numbers, with 0 for a half.
abbrev pub whole : Floats
whole = record {
  Float = ℤ;
  of_int = λ d. d;
  to_int = λ x. x;
  seconds = λ d. d;
  zero_f = pos 0;
  half = pos 0;
  one = pos 1;
  add = ◌+ℤ◌;
  mul = λ a b. pos (pos_part a * pos_part b);
  div = λ a b. pos (pos_part a / pos_part b);
  pow = λ a b. pos (pos_part a ^ pos_part b);
  at_least = λ a b. leb_ℤ b a;
  above = λ a b. ltb_ℤ b a;
  is_nan = λ x. false;
  is_inf = λ x. false;
  round = λ x. x;
}

abbrev twice : Supervisor whole
twice = record {
  policy = restart_on_crash;
  max_restarts = pos 2;
  backoff_base = pos 10;
  factor = pos 2;
  max_backoff = pos 1000;
  jitter = false;
  storm_pause = pos 0;
  failure_decay = pos 0;
  failure_threshold = pos 5;
  stop_when = none;
}

abbrev env : Env whole ℕ
env = record { surroundings = calm_world; now = λ w. (pos 0, w); rng = λ w. (pos 0, w) }

-- One crash, then a clean run.
one_restart :
    run whole env (codes "git") twice crashing git_status 3 1
    ≡ some (
      ok (record {
        final = result_with (exit_with (pos 0)) [];
        restarts = 1;
        stopped = stopped_policy_satisfied;
        storm_pauses = 0;
      }),
      0,
    )
unfolding run processkit_go.Supervisor.backoff_delay processkit_go.Supervisor.apply_jitter
    processkit_go.World.sleep_ctx processkit_go.Supervisor.wants_restart
    processkit_go.Result.success processkit_go.Outcome.code_of
one_restart = refl

run_within_budget_example :
    (r : Fallible SupervisionOutcome) × (w' : Recorded ℕ) × (k : ℕ) × (run whole
        (beside_env whole env)
        (codes "git")
        twice
        (recording crashing)
        git_status
        3
        (5, [])
      ≡ some (r, w'))
    × (calls_of w' ≡ [] ++ replicate k git_status)
    × (k ≤ 3)
    × ReportsRuns whole twice k r
run_within_budget_example =
    run_within_budget whole twice env (codes "git") crashing git_status 2 5 [] refl

-- The command fails to start, then runs well.
abbrev busy : System ℕ
busy inv zero = (fine, zero)
busy inv (suc n) = (record fine { start_err = some (errno 11) }, n)
