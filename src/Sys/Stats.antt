-- ===== src/Sys/Stats.antt =====
-- internal/sys: the resource snapshots of the backends (`Stats` of job_unix.go and job_linux.go).
use processkit_go.Prelude.{ℤ, pos, ◌-ℤ◌, ℕ, ◌+◌, Option, none, some, List, [], ◌∷◌, map, length}
use processkit_go.Sys.{Kernel}
use processkit_go.Sys.Metrics.{ProcMetrics}
use processkit_go.Sys.Counters.{add_duration_sat, add_u64_sat}
use processkit_go.Sys.ProcessGroup.{PgroupJob}
use processkit_go.Sys.Cgroup.{CgroupFs, CgroupJob, members}

-- `Stats`; a figure that is not there is `none`.
pub record Stats : Type 0 where
  pub active_processes : ℕ
  pub cpu_time : Option ℤ
  pub peak_memory : Option ℕ

abbrev pub zero_stats : Stats
zero_stats = record { active_processes = 0; cpu_time = none; peak_memory = none }

-- The sums of `cgroupJob.Stats`; a figure that is not there counts as 0.
unfoldable pub add_cpu : Option ℤ → Option ℤ → Option ℤ
add_cpu total none = total
add_cpu none (some t) = some (add_duration_sat (pos 0) t)
add_cpu (some total) (some t) = some (add_duration_sat total t)

unfoldable pub add_memory : Option ℕ → Option ℕ → Option ℕ
add_memory total none = total
add_memory none (some m) = some (add_u64_sat 0 m)
add_memory (some total) (some m) = some (add_u64_sat total m)

-- The loop over the members' metrics.
unfoldable pub add_metrics : List ProcMetrics → Stats → Stats
unfolding add_cpu add_memory
add_metrics [] s = s
add_metrics (m ∷ ms) s = add_metrics ms (record s {
  cpu_time = add_cpu s.cpu_time m.cpu_time;
  peak_memory = add_memory s.peak_memory m.peak_memory;
})

module _ {W : Type 0} where
  -- The metrics of each pid, read one after the other.
  unfoldable pub metrics_each : (ℤ → W → ProcMetrics × W) → List ℤ → W → List ProcMetrics × W
  metrics_each read [] w = ([], w)
  metrics_each read (pid ∷ pids) w =
      let (m, w₁) = read pid w in let (ms, w₂) = metrics_each read pids w₁ in (m ∷ ms, w₂)

  -- `cgroupJob.Stats`, with `processMetrics` as a parameter.
  unfoldable pub cgroup_stats : (ℤ → W → ProcMetrics × W) → CgroupFs W → CgroupJob → W → Stats × W
  unfolding metrics_each add_metrics
  cgroup_stats read fs j w =
      let (pids, w₁) = members fs j w in
      let (ms, w₂) = metrics_each read pids w₁ in
      (add_metrics ms (record zero_stats { active_processes = length pids }), w₂)

  -- How many of these targets take the signal 0.
  unfoldable pub count_alive : Kernel W → List ℤ → W → ℕ × W
  count_alive k [] w = (0, w)
  count_alive k (target ∷ targets) w =
      let (failed, w₁) = k.kill target (pos 0) w in
      let (n, w₂) = count_alive k targets w₁ in (elim failed [ none ↦ 1 + n | some e ↦ n ], w₂)

  -- `pgroupJob.Stats`: the groups, then the pids that were adopted alone.
  unfoldable pub pgroup_stats : Kernel W → PgroupJob → W → Stats × W
  unfolding count_alive
  pgroup_stats k j w =
      let (groups, w₁) = count_alive k (map (λ p. pos 0 -ℤ p) j.pgids) w in
      let (solo, w₂) = count_alive k j.solo w₁ in
      (record zero_stats { active_processes = groups + solo }, w₂)
