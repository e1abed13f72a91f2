-- ===== src/Tests/Groups.antt =====
-- Groups and process-group jobs at concrete inputs (group.go, internal/sys/job_unix.go).
use processkit_go.Prelude.{
  pos, Bool, true, false, none, some, is_some, List, [], ◌∷◌, codes, ◌≡◌, refl, All, if◌then◌else◌,
}
use processkit_go.Outcome.{mechanism_process_group}
use processkit_go.Errors.{ok}
use processkit_go.Stream.{StartConfig, overflow_block}
use processkit_go.Sys.{Kernel}
use processkit_go.Running.{pids}
use processkit_go.Sys.ProcessGroup.{PgroupJob, new_pgroup_job, pgroup_ops}
use processkit_go.Sys.ProcessGroup.Deliveries.{
  Logged, logging, Broadcast, signal-Broadcast, targets_of,
}
use processkit_go.Sys.ProcessGroup.Contained.{Reached, pgroup_contract}
use processkit_go.Group.{
  map_unsupported, Host, Signal, sig_term, new_group, start, on_configured, on_piped, on_spawned,
  on_assigned, adopt, mark_closed,
}
use processkit_go.Group.Schedule.{
  Event, State, starts, adopts, signals, marks_closed, tears_down, initial, run_schedule, step,
}
use processkit_go.Group.Registration.{Registered, start-Registered}
use processkit_go.Group.Close.{run_schedule-no_orphan}
use processkit_go.Tests.Samples.{git_status}

-- Every second `Kill` finds its target gone (ESRCH is 3), and no process can change its group.
abbrev kernel : Kernel Bool
kernel = record {
  kill = λ target sig w. (if w then (some 3, false) else (none, true));
  setpgid = λ pid pgid w. (some 13, w);
  esrch = 3;
  eperm = 1;
  sigkill = pos 9;
  sigstop = pos 19;
  sigcont = pos 18;
}

abbrev tracking : PgroupJob
tracking = record { pgids = pos 41 ∷ pos 42 ∷ []; solo = pos 43 ∷ [] }

signal-Broadcast_example :
    Broadcast kernel
      (targets_of tracking)
      (pos 15)
      none
      []
      (processkit_go.Sys.ProcessGroup.signal (logging kernel) (pos 15) tracking (true, []))
signal-Broadcast_example = signal-Broadcast kernel (pos 15) tracking true []

-- A host whose children get the pid 41.
abbrev host : Host (Logged Bool)
host = record {
  prepare_pipes = λ config w. (none, w);
  close_pipes = λ w. w;
  spawn = λ attr inv w. (ok (pos 41), w);
  kill_process = λ pid w. w;
  wait_process = λ pid w. w;
  path_dirs = [];
  signal_number = λ kind. pos 15;
  show_int = λ n. [];
  log_event = λ e w. w;
}

abbrev config : StartConfig
config = record {
  has_stdout_tee = false;
  has_stderr_tee = false;
  has_on_stdout = false;
  has_on_stderr = false;
  stream_lines = true;
  buffer_lines = pos 8;
  overflow = overflow_block;
  max_line_bytes = pos 1024;
}

abbrev term : Signal
term = record { name = codes "TERM"; kind = sig_term; raw = pos 0 }

-- A start, an adoption and a signal, then the locked part of Close.
abbrev before : List Event
before = starts git_status config ∷ adopts (some (pos 7)) ∷ signals term ∷ marks_closed ∷ []

-- After the teardown, a start that lost the race, and a signal.
abbrev after : List Event
after = starts git_status config ∷ signals term ∷ []

abbrev opened : State PgroupJob (Logged Bool)
opened = initial mechanism_process_group (record { pgids = []; solo = [] }) (false, [])

closing : is_some (run_schedule (pgroup_ops (logging kernel)) host before opened).closing ≡ true
unfolding run_schedule step new_group start on_configured on_piped on_spawned on_assigned adopt
    mark_closed processkit_go.Sys.ProcessGroup.configure processkit_go.Sys.ProcessGroup.assign
    map_unsupported processkit_go.Sys.ProcessGroup.adopt logging
closing = refl

run_schedule-no_orphan_example :
    (let s =
        step
          (pgroup_ops (logging kernel))
          host
          tears_down
          (run_schedule (pgroup_ops (logging kernel)) host before opened) in
      All
        (λ q. Reached kernel q s.world)
        (pids (run_schedule (pgroup_ops (logging kernel)) host after s).group.procs))
run_schedule-no_orphan_example =
    run_schedule-no_orphan (pgroup_ops (logging kernel)) host (pgroup_contract kernel)
      mechanism_process_group (record { pgids = []; solo = [] }) (false, []) before after closing

start-Registered_example :
    Registered git_status opened.group
      (start (pgroup_ops (logging kernel)) host git_status config opened.group (true, []))
start-Registered_example =
    start-Registered (pgroup_ops (logging kernel)) host git_status config opened.group (true, [])
