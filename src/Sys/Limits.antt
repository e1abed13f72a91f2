-- ===== src/Sys/Limits.antt =====
-- `Limits` of internal/sys/sys.go: the caps on a job, each of them optional.
use processkit_go.Prelude.{ℕ, Bool, ◌||◌}
use processkit_go.Floats.{Floats}

module _ (f : Floats) where
  pub record Limits : Type 0 where
    pub memory_max : ℕ
    pub has_memory_max : Bool
    pub max_processes : ℕ
    pub has_max_processes : Bool
    pub cpu_quota : f.Float
    pub has_cpu_quota : Bool

  -- `Limits.Any`.
  unfoldable pub any_limit : Limits → Bool
  any_limit l = l.has_memory_max || (l.has_max_processes || l.has_cpu_quota)
