-- ===== src/Sys/Windows/Usage.antt =====
-- internal/sys/job_windows.go and proc_windows.go: what a job and a process have used.
use processkit_go.Prelude.{ℤ, pos, ℕ, ◌+◌, ◌*◌, ◌%◌, ◌^◌, Option, none, some, codes, if◌then◌else◌}
use processkit_go.Errors.{wrapped, Fallible, ok, err}
use processkit_go.Sys.Counters.{add_100ns, add_int64, signed64, nanos_from_unit}
use processkit_go.Sys.Metrics.{ProcMetrics}
use processkit_go.Sys.Stats.{Stats, zero_stats}
use processkit_go.Sys.Windows.{Accounting, WinApi, WinJob, is_closed, to_query}

-- `filetimeTo100ns`.
unfoldable pub filetime_to_100ns : ℕ × ℕ → ℤ
filetime_to_100ns (high, low) = signed64 (high * 2 ^ 32 % 2 ^ 64 + low)

module _ {W : Type 0} (api : WinApi W) where
  unfoldable pub peak_of : Fallible ℕ → Option ℕ
  peak_of (err e) = none
  peak_of (ok peak) = some peak

  unfoldable pub on_accounting : WinJob → Fallible Accounting × W → Fallible Stats × W
  unfolding peak_of
  on_accounting j (err e, w) = (err (wrapped (codes "QueryInformationJobObject(accounting)") e), w)
  on_accounting j (ok acct, w) =
      let (peak, w') = api.query_peak j.handle w in
      (
        ok (record {
          active_processes = acct.active;
          cpu_time = some (add_100ns acct.total_user_time acct.total_kernel_time);
          peak_memory = peak_of peak;
        }),
        w',
      )

  -- `Stats`.
  unfoldable pub stats : WinJob → W → Fallible Stats × W
  unfolding on_accounting is_closed
  stats j w =
      if is_closed api j
      then (ok zero_stats, w)
      else on_accounting j (api.query_accounting j.handle w)

  unfoldable pub times_cpu : Fallible ((ℕ × ℕ) × (ℕ × ℕ)) → Option ℤ
  unfolding filetime_to_100ns
  times_cpu (err e) = none
  times_cpu (ok (kernel, user)) =
      some
        (nanos_from_unit (add_int64 (filetime_to_100ns kernel) (filetime_to_100ns user)) (pos 100))

  unfoldable pub on_query : Fallible ℕ × W → ProcMetrics × W
  unfolding times_cpu
  on_query (err e, w) = (record { cpu_time = none; peak_memory = none }, w)
  on_query (ok h, w) =
      let (times, w₁) = api.process_times h w in
      let (peak, w₂) = api.process_peak h w₁ in
      (record { cpu_time = times_cpu times; peak_memory = peak }, (api.close_handle h w₂).1)

  -- `processMetrics`.
  unfoldable pub process_metrics : ℤ → W → ProcMetrics × W
  unfolding on_query
  process_metrics pid w = on_query (api.open_process to_query pid w)
