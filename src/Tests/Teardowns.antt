-- ===== src/Tests/Teardowns.antt =====
-- A shutdown of a group with one process (group.go).
use processkit_go.Prelude.{ℤ, pos, ℕ, Bool, true, false, none, [], ◌∷◌, ◌++◌, codes, ◌≡◌, refl}
use processkit_go.Outcome.{mechanism_process_group}
use processkit_go.Errors.{ok}
use processkit_go.Sys.{JobOps}
use processkit_go.Running.{RunningProcess}
use processkit_go.Group.{Group, Host, sig_term}
use processkit_go.Group.Shutdown.{default_shutdown_grace, shutdown}
use processkit_go.Group.Shutdown.Traced.{
  called_signal, called_kill, called_close, traced_job, traced_host, traced_wait, TornDown,
  shutdown-TornDown,
}

abbrev willing_job : JobOps ℕ ℕ
willing_job = record {
  configure = λ j attr. ok attr;
  assign = λ pid j w. (none, j, w);
  adopt = λ pid j w. (none, j, w);
  signal = λ sig j w. (none, w);
  suspend = λ j w. (none, w);
  resume = λ j w. (none, w);
  kill = λ j w. (none, w);
  close = λ j w. (none, w);
}

abbrev host : Host ℕ
host = record {
  prepare_pipes = λ config w. (none, w);
  close_pipes = λ w. w;
  spawn = λ attr inv w. (ok (pos 41), w);
  kill_process = λ pid w. w;
  wait_process = λ pid w. w;
  path_dirs = [];
  signal_number = λ kind. pos 15;
  show_int = λ n. [];
  log_event = λ e w. w;
}

abbrev worker : RunningProcess
worker = record {
  pid = pos 41;
  program = codes "worker";
  mechanism = mechanism_process_group;
  stopped = false;
  has_lines = true;
  lines_closed = false;
  finished = none;
}

abbrev group : Bool → Group ℕ
group closed = record {
  job = 0;
  mechanism = mechanism_process_group;
  procs = worker ∷ [];
  closed = closed;
}

-- The worker does not exit within the grace period.
abbrev stubborn : ℤ → RunningProcess → ℕ → Bool × ℕ
stubborn grace p w = (false, w)

-- The signal, the kill and the close; of a closed group the signal alone.
open_calls :
    (shutdown
      (traced_job willing_job)
      (traced_host host)
      (traced_wait stubborn)
      default_shutdown_grace
      (group false)
      (0, [])).2.1
    ≡ called_signal (pos 15) ∷ called_kill ∷ called_close ∷ []
unfolding shutdown processkit_go.Group.mark_closed processkit_go.Group.tear_down
open_calls = refl

closed_calls :
    (shutdown
      (traced_job willing_job)
      (traced_host host)
      (traced_wait stubborn)
      default_shutdown_grace
      (group true)
      (0, [])).2.1
    ≡ called_signal (pos 15) ∷ []
unfolding shutdown processkit_go.Group.mark_closed
closed_calls = refl

shutdown-TornDown_example : TornDown (group false) ([] ++ called_signal (pos 15) ∷ []) (
    shutdown
      (traced_job willing_job)
      (traced_host host)
      (traced_wait stubborn)
      default_shutdown_grace
      (group false)
      (0, []))
shutdown-TornDown_example =
    shutdown-TornDown willing_job host stubborn default_shutdown_grace (group false) (0, [])
