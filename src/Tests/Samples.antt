-- ===== src/Tests/Samples.antt =====
-- Data that the tests share: invocations, results, stages, and surroundings that never end the context.
use processkit_go.Prelude.{ℤ, pos, ℕ, zero, suc, true, false, none, [], ◌∷◌, Bytes, codes}
use processkit_go.Outcome.{
  Outcome, outcome_exited, outcome_timed_out, outcome_signalled, mechanism_process_group,
}
use processkit_go.Errors.{Error, start_error, errno, ok, err}
use processkit_go.Result.{Invocation, Result}
use processkit_go.World.{Runner, Surroundings}

abbrev pub exit_with : ℤ → Outcome
exit_with code = record { kind = outcome_exited; code = code; signal = pos 0; has_signal = false }

abbrev pub killed_by : ℤ → Outcome
killed_by sig = record { kind = outcome_signalled; code = pos 0; signal = sig; has_signal = true }

abbrev pub deadline : Outcome
deadline = record { kind = outcome_timed_out; code = pos 0; signal = pos 0; has_signal = false }

abbrev pub git_status : Invocation
git_status = record {
  program = codes "git";
  args = codes "status" ∷ [];
  dir = [];
  env = none;
  ok_codes = pos 3 ∷ [];
  timeout = pos 0;
  stdin = none;
}

abbrev pub result_with : Outcome → Bytes → Result
result_with o out = record {
  program = codes "git";
  args = codes "status" ∷ [];
  outcome = o;
  stdout = out;
  stderr = [];
  duration = pos 0;
  ok_codes = pos 3 ∷ [];
  mechanism = mechanism_process_group;
}

-- A context that never ends, and timers that always fire.
abbrev pub calm_world : {W : Type 0} → Surroundings W
calm_world = record { ctx_err = λ w. none; timer = λ d w. (true, w); log_event = λ e w. w }

-- A spawn that fails with EAGAIN.
abbrev pub eagain : Error
eagain = start_error (codes "git") (errno 11)

-- The runs fail until the world has counted down to 0; then they exit with 0.
abbrev pub flaky : Runner ℕ
flaky inv zero = (ok (result_with (exit_with (pos 0)) (codes "up ")), zero)
flaky inv (suc n) = (err eagain, n)

-- The runs exit with 1 until the world has counted down to 0; then they exit with 0.
abbrev pub crashing : Runner ℕ
crashing inv zero = (ok (result_with (exit_with (pos 0)) []), zero)
crashing inv (suc n) = (ok (result_with (exit_with (pos 1)) []), n)
