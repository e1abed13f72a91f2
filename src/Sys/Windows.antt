-- ===== src/Sys/Windows.antt =====
-- internal/sys/job_windows.go: the containment backend on a Job Object. The calls of
-- golang.org/x/sys/windows are a parameter; a handle is a number.
pub mod Guard
pub mod Usage
use processkit_go.Prelude.{
  ℤ, pos, ltb_ℤ, ◌+ℤ◌, ℕ, ◌+◌, ◌-◌, ◌*◌, ◌%◌, ◌^◌, ◌==◌, Bool, true, false, not, ◌&&◌, ◌||◌, Option,
  none, some, ◌++◌, Bytes, codes, if◌then◌else◌,
}
use processkit_go.Errors.{Error, other, wrapped, sentinel, sys_err_unsupported, Fallible, ok, err}
use processkit_go.Floats.{Floats}
use processkit_go.Sys.{SysProcAttr}
use processkit_go.Sys.Limits.{Limits}
use processkit_go.Sys.Counters.{add_100ns, add_int64, signed64, nanos_from_unit}
use processkit_go.Sys.Metrics.{ProcMetrics}
use processkit_go.Sys.Stats.{Stats, zero_stats}

-- Of JOBOBJECT_EXTENDED_LIMIT_INFORMATION: the three limit flags and the caps.
pub record ExtendedLimits : Type 0 where
  pub kill_on_job_close : Bool
  pub limits_memory : Bool
  pub limits_processes : Bool
  pub job_memory_limit : ℕ
  pub active_process_limit : ℕ

-- Of JOBOBJECT_BASIC_ACCOUNTING_INFORMATION.
pub record Accounting : Type 0 where
  pub total_user_time : ℤ
  pub total_kernel_time : ℤ
  pub active : ℕ

-- The rights with which a process is opened.
pub data Access : Type 0 where
  to_assign to_adopt to_terminate to_query : Access

pub record WinApi (W : Type 0) : Type 0 where
  pub create_job : W → Fallible ℕ × W
  pub set_extended : ℕ → ExtendedLimits → W → Option Error × W
  pub set_cpu_rate : ℕ → ℤ → W → Option Error × W
  pub close_handle : ℕ → W → Option Error × W
  pub open_process : Access → ℤ → W → Fallible ℕ × W
  pub assign_to_job : ℕ → ℕ → W → Option Error × W
  -- NtResumeProcess, whose status is 0 on success.
  pub nt_resume : ℕ → W → ℕ × W
  pub terminate_process : ℕ → W → W
  pub terminate_job : ℕ → W → Option Error × W
  pub exit_code : ℕ → W → Fallible ℕ × W
  pub query_accounting : ℕ → W → Fallible Accounting × W
  -- PeakJobMemoryUsed, and the peak of K32GetProcessMemoryInfo.
  pub query_peak : ℕ → W → Fallible ℕ × W
  pub process_peak : ℕ → W → Option ℕ × W
  -- The kernel and the user time of GetProcessTimes: the high and the low half of each.
  pub process_times : ℕ → W → Fallible ((ℕ × ℕ) × (ℕ × ℕ)) × W
  -- `errors.Is` with ERROR_INVALID_PARAMETER.
  pub is_invalid_parameter : Error → Bool
  pub invalid_handle : ℕ
  pub num_cpu : ℕ
  -- The bits of a uintptr.
  pub word : ℕ
  pub show_hex : ℕ → Bytes

pub record WinJob : Type 0 where
  pub handle : ℕ

unfoldable pub configure : WinJob → SysProcAttr → Fallible SysProcAttr
configure j attr = ok (record attr { suspended = true })

-- `Signal`, `Suspend` and `Resume`.
abbrev pub unsupported : Option Error
unsupported = some (sentinel sys_err_unsupported)

module _ (f : Floats) where
  -- `cpuHardCapRate`.
  unfoldable pub cpu_hard_cap_rate : f.Float → f.Float → ℤ
  cpu_hard_cap_rate cores cpus =
      let hosts = if f.at_least f.zero_f cpus then f.one else cpus in
      let rate = f.round (f.mul (f.div cores hosts) (f.of_int (pos 10000))) in
      let floored = if f.above f.one rate then f.one else rate in
      f.to_int (if f.above floored (f.of_int (pos 10000)) then f.of_int (pos 10000) else floored)

module _ {W : Type 0} (api : WinApi W) where
  -- A job without a handle.
  unfoldable pub is_closed : WinJob → Bool
  is_closed j = j.handle == api.invalid_handle || j.handle == 0

  -- The conversion to a uintptr, saturating.
  unfoldable pub memory_limit : ℕ → ℕ
  memory_limit bytes =
      if bytes % 2 ^ api.word == bytes then bytes % 2 ^ api.word else 2 ^ api.word - 1

  abbrev failing : Bytes → Option Error → Option Error
  failing text none = none
  failing text (some e) = some (wrapped text e)

  module _ (f : Floats) where
    unfoldable pub extended_limits : Limits f → ExtendedLimits
    unfolding memory_limit
    extended_limits l = record {
      kill_on_job_close = true;
      limits_memory = l.has_memory_max;
      limits_processes = l.has_max_processes;
      job_memory_limit = if l.has_memory_max then memory_limit l.memory_max else 0;
      active_process_limit = if l.has_max_processes then l.max_processes else 0;
    }

    -- After `SetInformationJobObject`: the handle is closed on an error.
    unfoldable pub on_rated : ℕ → Option Error × W → Fallible WinJob × W
    on_rated h (none, w) = (ok (record { handle = h }), w)
    on_rated h (some e, w) =
        (err (wrapped (codes "SetInformationJobObject(cpu-rate)") e), (api.close_handle h w).1)

    unfoldable pub on_extended : Limits f → ℕ → Option Error × W → Fallible WinJob × W
    unfolding on_rated cpu_hard_cap_rate
    on_extended l h (some e, w) = (
      err (wrapped (codes "SetInformationJobObject(extended-limit)") e),
      (api.close_handle h w).1,
    )
    on_extended l h (none, w) = on_rated h (
        if l.has_cpu_quota
        then api.set_cpu_rate h (cpu_hard_cap_rate f l.cpu_quota (f.of_int (pos api.num_cpu))) w
        else (none, w))

    unfoldable pub on_created : Limits f → Fallible ℕ × W → Fallible WinJob × W
    unfolding on_extended extended_limits
    on_created l (err e, w) = (err (wrapped (codes "CreateJobObject") e), w)
    on_created l (ok h, w) = on_extended l h (api.set_extended h (extended_limits l) w)

    -- `newJob`.
    unfoldable pub new_job : Limits f → W → Fallible WinJob × W
    unfolding on_created
    new_job l w = on_created l (api.create_job w)

  abbrev pub closed_error : Error
  closed_error = other (codes "sys: job is closed")

  -- The guard of `Assign`: it terminates a child that is not contained.
  unfoldable pub terminate_opened : Fallible ℕ × W → W
  terminate_opened (err e, w) = w
  terminate_opened (ok h, w) = (api.close_handle h (api.terminate_process h w)).1

  unfoldable pub guard : ℤ → W → W
  unfolding terminate_opened
  guard pid w = terminate_opened (api.open_process to_terminate pid w)

  -- `ntResumeProcess`.
  unfoldable pub nt_resume_process : ℕ → W → Option Error × W
  nt_resume_process h w =
      let (status, w') = api.nt_resume h w in
      if status == 0
      then (none, w')
      else (some (other (codes "NtResumeProcess returned NTSTATUS 0x" ++ api.show_hex status)), w')

  -- After the resume of a child in the job: on an error the child is terminated.
  unfoldable pub on_resumed : ℕ → Option Error × W → Option Error × W
  on_resumed h (none, w) = (none, (api.close_handle h w).1)
  on_resumed h (some e, w) = (
    some (wrapped (codes "resume process") e),
    (api.close_handle h (api.terminate_process h w)).1,
  )

  unfoldable pub on_placed : ℤ → ℕ → Option Error × W → Option Error × W
  unfolding on_resumed nt_resume_process guard
  on_placed pid h (none, w) = on_resumed h (nt_resume_process h w)
  on_placed pid h (some e, w) =
      (some (wrapped (codes "AssignProcessToJobObject") e), guard pid (api.close_handle h w).1)

  unfoldable pub on_opened : ℤ → WinJob → Fallible ℕ × W → Option Error × W
  unfolding on_placed guard
  on_opened pid j (err e, w) = (some (wrapped (codes "OpenProcess") e), guard pid w)
  on_opened pid j (ok h, w) = on_placed pid h (api.assign_to_job j.handle h w)

  -- `Assign`.
  unfoldable pub assign : Option ℤ → WinJob → W → Option Error × W
  unfolding on_opened is_closed
  assign none j w = (some (other (codes "sys: Assign called before the process started")), w)
  assign (some pid) j w =
      if is_closed j
      then (some closed_error, w)
      else on_opened pid j (api.open_process to_assign pid w)

  -- `processExited`: 259 is STILL_ACTIVE.
  unfoldable pub process_exited : Fallible ℕ → Fallible Bool
  process_exited (err e) = err e
  process_exited (ok code) = ok (not (code == 259))

  abbrev pub adopt_failed : Error → Fallible Bool → Option Error
  adopt_failed e (ok true) = none
  adopt_failed e (ok false) = some (wrapped (codes "AssignProcessToJobObject") e)
  adopt_failed e (err _) = some (wrapped (codes "AssignProcessToJobObject") e)

  unfoldable pub on_adopted : ℕ → Option Error × W → Option Error × W
  unfolding process_exited
  on_adopted h (none, w) = (none, (api.close_handle h w).1)
  on_adopted h (some e, w) =
      let (code, w') = api.exit_code h w in
      (adopt_failed e (process_exited code), (api.close_handle h w').1)

  unfoldable pub on_adoptable : WinJob → Fallible ℕ × W → Option Error × W
  unfolding on_adopted
  on_adoptable j (err e, w) =
      (if api.is_invalid_parameter e then none else some (wrapped (codes "OpenProcess") e), w)
  on_adoptable j (ok h, w) = on_adopted h (api.assign_to_job j.handle h w)

  -- `Adopt`.
  unfoldable pub adopt : ℤ → WinJob → W → Option Error × W
  unfolding on_adoptable is_closed
  adopt pid j w =
      if is_closed j
      then (some closed_error, w)
      else on_adoptable j (api.open_process to_adopt pid w)

  -- `Kill`.
  unfoldable pub kill : WinJob → W → Option Error × W
  unfolding is_closed
  kill j w = if is_closed j then (none, w) else api.terminate_job j.handle w

  -- `Close`.
  unfoldable pub close : WinJob → W → Option Error × WinJob × W
  unfolding is_closed
  close j w =
      let (failed, w') = api.close_handle j.handle w in
      if is_closed j then (none, j, w) else (failed, record { handle = api.invalid_handle }, w')
