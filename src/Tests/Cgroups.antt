-- ===== src/Tests/Cgroups.antt =====
-- A cgroup (internal/sys/job_linux.go) with two members, on a kernel without cgroup.kill.
use processkit_go.Prelude.{
  ℤ, pos, true, false, none, some, [], ◌∷◌, ◌++◌, Bytes, bytes_eq, codes, ◌≡◌, refl,
}
use processkit_go.Outcome.{mechanism_cgroup_v2}
use processkit_go.Errors.{errno, Fallible, ok, err}
use processkit_go.Text.{split_lines, parse_int, trim_space, fields, cut_prefix}
use processkit_go.Group.{Group, new_group}
use processkit_go.Group.Limits.{make_group, validate_limits, on_validated, on_job}
use processkit_go.Sys.{Kernel}
use processkit_go.Sys.Limits.{any_limit}
use processkit_go.Sys.Cgroup.{
  ControlFile, cgroup_kill, CgroupFs, CgroupJob, kill, members, listed, pids_in, positive_pid,
  kill_each, is_empty, write_cgroup, on_file,
}
use processkit_go.Sys.Cgroup.Creation.{
  CgroupHost, LinuxJob, cgroup, new_job, create_cgroup, on_created, on_rel, on_made, on_limited,
  on_opened, apply_limits, on_enabled, enable, write_caps, or_else, mkdir_unique, cap_writes,
  needed_of, controllers_to_enable, not_enabled, self_cgroup_rel, rel_in, trim_slash,
  kernel_at_least,
}
use processkit_go.Sys.Cgroup.Caps.{Enforced, make_group-Enforced}
use processkit_go.Tests.Supervision.{whole}
use processkit_go.Tests.Caps.{small}

data Tenants : Type 0 where
  two one gone : Tenants

abbrev fewer : Tenants → Tenants
fewer two = one
fewer one = gone
fewer gone = gone

abbrev procs_text : Tenants → Bytes
procs_text two = codes "11" ++ (10 ∷ (codes "12" ++ (10 ∷ [])))
procs_text one = codes "12" ++ (10 ∷ [])
procs_text gone = []

abbrev no_such_file : ControlFile → Fallible ℤ
no_such_file f = elim f [ cgroup_kill ↦ err (errno 2) | _ ↦ ok (pos 9) ]

abbrev tenants_kernel : Kernel Tenants
tenants_kernel = record {
  kill = λ pid sig w. (none, fewer w);
  setpgid = λ pid pgid w. (none, w);
  esrch = 3;
  eperm = 1;
  sigkill = pos 9;
  sigstop = pos 19;
  sigcont = pos 18;
}

abbrev tenants_fs : CgroupFs Tenants
tenants_fs = record {
  kernel = tenants_kernel;
  open_file = λ path f w. (no_such_file f, w);
  write_file = λ fd text w. (none, w);
  close_file = λ fd w. (none, w);
  read_procs = λ path w. (some (procs_text w), w);
  read_enabled = λ path w. (codes "cpu pids", w);
  sleep = λ d w. w;
  mkdir = λ path w. (none, w);
  remove = λ path w. w;
  open_dir = λ path w. (ok (pos 5), w);
  close_dir = λ fd w. w;
  next_count = λ w. (1, w);
  is_esrch = λ e. false;
  is_not_exist = λ e. true;
  is_exist = λ e. false;
  itoa = λ n. codes "7";
}

abbrev slice : CgroupJob
slice = record {
  path = codes "/sys/fs/cgroup/processkit-7-s-7";
  dir = some (pos 5);
  dir_fd = pos 5;
}

abbrev joined : Bytes → Bytes → Bytes
joined a [] = a
joined a (c ∷ b) = a ++ (47 ∷ (c ∷ b))

abbrev linux : CgroupHost
linux = record {
  mounted = true;
  release = some (pos 6, pos 1);
  self_cgroup = ok (codes "0::/" ++ (10 ∷ []));
  getpid = 7;
  salt = codes "s";
  path_join = joined;
}

both_killed : kill tenants_fs slice two ≡ (none, gone)
unfolding kill processkit_go.Sys.Cgroup.on_killed processkit_go.Sys.Cgroup.swept
    processkit_go.Sys.Cgroup.sweep write_cgroup on_file members listed pids_in positive_pid
    kill_each split_lines parse_int trim_space
both_killed = refl

abbrev capped : Group (LinuxJob whole)
capped = new_group mechanism_cgroup_v2 (cgroup slice)

make_group-Enforced_example : Enforced whole tenants_fs linux small (cgroup slice)
unfolding new_group fields bytes_eq cut_prefix split_lines trim_space
make_group-Enforced_example =
    make_group-Enforced whole tenants_fs linux (λ e. codes "failed") small two capped
      (unfold any_limit in refl)
      (unfold write_cgroup on_file make_group validate_limits on_validated on_job any_limit new_job
          create_cgroup on_created on_rel on_made on_limited on_opened apply_limits on_enabled
          enable write_caps or_else mkdir_unique cap_writes needed_of controllers_to_enable
          not_enabled self_cgroup_rel rel_in trim_slash kernel_at_least in
        refl)
