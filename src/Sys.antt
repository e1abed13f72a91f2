-- ===== src/Sys.antt =====
-- internal/sys/sys.go: the interface `Job`, which contains process trees, and the system calls of
-- package syscall that its backends make, as a parameter. `cmd.Process` is the pid, if there is one.
pub mod ProcessGroup
pub mod Counters
pub mod Metrics
pub mod Limits
pub mod Cgroup
pub mod Stats
pub mod Windows
use processkit_go.Prelude.{ℤ, ℕ, Bool, false, Option, none, some, ◌≡◌}
use processkit_go.Errors.{Error, Fallible}

-- Of `syscall.SysProcAttr`, what containment sets.
pub record SysProcAttr : Type 0 where
  pub setpgid : Bool
  -- The descriptor of `UseCgroupFD`, if that is set.
  pub cgroup_fd : Option ℤ
  -- `CREATE_SUSPENDED`.
  pub suspended : Bool

abbrev pub no_attr : SysProcAttr
no_attr = record { setpgid = false; cgroup_fd = none; suspended = false }

-- `Job`, over the state `J` of a backend and a world `W`; no error is `none`.
pub record JobOps (J W : Type 0) : Type 0 where
  pub configure : J → SysProcAttr → Fallible SysProcAttr
  pub assign : Option ℤ → J → W → Option Error × J × W
  pub adopt : ℤ → J → W → Option Error × J × W
  pub signal : ℤ → J → W → Option Error × W
  pub suspend : J → W → Option Error × W
  pub resume : J → W → Option Error × W
  pub kill : J → W → Option Error × W
  pub close : J → W → Option Error × W

-- The system calls and constants of package syscall; a call's error is its number.
pub record Kernel (W : Type 0) : Type 0 where
  pub kill : ℤ → ℤ → W → Option ℕ × W
  pub setpgid : ℤ → ℤ → W → Option ℕ × W
  pub esrch : ℕ
  pub eperm : ℕ
  pub sigkill : ℤ
  pub sigstop : ℤ
  pub sigcont : ℤ

-- What a client of a job relies on: a child that was assigned stays tracked, a kill reaches every
-- tracked child, and a close does not undo that.
pub record Contract {J W : Type 0} (ops : JobOps J W) : Type 1 where
  pub Tracked : ℤ → J → Type 0
  pub Reached : ℤ → W → Type 0
  pub assign_tracks :
      (pid : ℤ) (j : J) (w : W)
      → (ops.assign (some pid) j w).0 ≡ none
      → Tracked pid (ops.assign (some pid) j w).1
  pub assign_keeps :
      (q : ℤ) (pid : Option ℤ) (j : J) (w : W) → Tracked q j → Tracked q (ops.assign pid j w).1
  pub adopt_keeps : (q pid : ℤ) (j : J) (w : W) → Tracked q j → Tracked q (ops.adopt pid j w).1
  pub kill_reaches : (q : ℤ) (j : J) (w : W) → Tracked q j → Reached q (ops.kill j w).1
  pub close_keeps : (q : ℤ) (j : J) (w : W) → Reached q w → Reached q (ops.close j w).1
