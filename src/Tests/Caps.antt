-- ===== src/Tests/Caps.antt =====
-- A group that is asked for with a cap (group.go).
use processkit_go.Prelude.{pos, true, false, codes, refl}
use processkit_go.Outcome.{mechanism_process_group}
use processkit_go.Errors.{Fallible, ok}
use processkit_go.Sys.ProcessGroup.{PgroupJob, new_pgroup_job}
use processkit_go.Sys.Limits.{Limits, any_limit}
use processkit_go.Group.Limits.{make_group, Capped, make_group-Capped}
use processkit_go.Tests.Supervision.{whole}

abbrev pub small : Limits whole
small = record {
  memory_max = 65536;
  has_memory_max = true;
  max_processes = 0;
  has_max_processes = false;
  cpu_quota = pos 0;
  has_cpu_quota = false;
}

-- A backend that takes every cap.
abbrev granting : Limits whole → Fallible PgroupJob
granting l = ok new_pgroup_job

make_group-Capped_example :
    Capped whole granting
      (λ j. mechanism_process_group)
      (λ e. codes "failed")
      small
      (make_group whole granting (λ j. mechanism_process_group) (λ e. codes "failed") small)
make_group-Capped_example =
    make_group-Capped whole granting (λ j. mechanism_process_group) (λ e. codes "failed") small
      (unfold any_limit in refl)
