-- ===== src/Outcome.antt =====
-- How a run ended and which primitive contained it: `Outcome` of result.go, `outcomeOf` of
-- outcome_unix.go and outcome_windows.go, mechanism.go, and `toMechanism` of runner.go.
-- An accessor that returns `(value, ok)` is an `Option`; an exit code and a signal are `int`s.
use processkit_go.Prelude.{ℤ, pos, Bool, true, false, ◌&&◌, Option, none, some, if◌then◌else◌}

pub data Mechanism : Type 0 where
  mechanism_unknown mechanism_job_object mechanism_process_group mechanism_cgroup_v2 : Mechanism

pub data OutcomeKind : Type 0 where
  outcome_exited outcome_signalled outcome_timed_out : OutcomeKind

pub record Outcome : Type 0 where
  pub kind : OutcomeKind
  pub code : ℤ
  pub signal : ℤ
  pub has_signal : Bool

unfoldable pub exited : ℤ → Outcome
exited code = record { kind = outcome_exited; code = code; signal = pos 0; has_signal = false }

unfoldable pub signalled : Option ℤ → Outcome
signalled none = record {
  kind = outcome_signalled;
  code = pos 0;
  signal = pos 0;
  has_signal = false;
}
signalled (some sig) = record {
  kind = outcome_signalled;
  code = pos 0;
  signal = sig;
  has_signal = true;
}

unfoldable pub timed_out : Outcome
timed_out = record { kind = outcome_timed_out; code = pos 0; signal = pos 0; has_signal = false }

abbrev pub is_exited : OutcomeKind → Bool
is_exited outcome_exited = true
is_exited _ = false

abbrev pub is_signalled : OutcomeKind → Bool
is_signalled outcome_signalled = true
is_signalled _ = false

abbrev pub is_timed_out : OutcomeKind → Bool
is_timed_out outcome_timed_out = true
is_timed_out _ = false

-- `Outcome.Code`.
unfoldable pub code_of : Outcome → Option ℤ
code_of o = if is_exited o.kind then some o.code else none

-- `Outcome.Signal`.
unfoldable pub signal_of : Outcome → Option ℤ
signal_of o = if is_signalled o.kind && o.has_signal then some o.signal else none

-- `Outcome.TimedOut`.
unfoldable pub has_timed_out : Outcome → Bool
has_timed_out o = is_timed_out o.kind

-- What the standard library's `os.ProcessState` and `syscall.WaitStatus` report.
pub record ProcessState : Type 0 where
  pub was_signaled : Bool
  pub wait_signal : ℤ
  pub exit_code : ℤ

pub data Platform : Type 0 where
  unix windows : Platform

-- `outcomeOf`, of which one is compiled for each platform.
unfoldable pub outcome_of : Platform → ProcessState → Outcome
unfolding exited signalled
outcome_of unix ps =
    if ps.was_signaled then signalled (some ps.wait_signal) else exited ps.exit_code
outcome_of windows ps = exited ps.exit_code
