-- ===== src/Group/Schedule.antt =====
-- The interleavings of a group's operations (group.go) as sequences of events. Each event is one locked
-- part of an operation, or the part of `Close` that runs after the lock is released.
use processkit_go.Prelude.{ℤ, ℕ, Option, none, some, List, [], ◌∷◌, get_elem?}
use processkit_go.Outcome.{Mechanism, Outcome}
use processkit_go.Errors.{Fallible}
use processkit_go.Result.{Invocation}
use processkit_go.Stream.{StartConfig}
use processkit_go.Sys.{JobOps}
use processkit_go.Running.{RunningProcess, terminal_event, reap, signal_stop, update_at}
use processkit_go.Group.{
  Group, Host, Signal, new_group, start, adopt, signal, suspend, resume, mark_closed, tear_down,
}

-- `marks_closed` and `tears_down` are the two parts of `Close`; `exits` is the reaper of the process
-- at an index, with the time since the start, `stops` the `signalStop` of its `Kill`.
pub data Event : Type 0 where
  starts : Invocation → StartConfig → Event
  adopts : Option ℤ → Event
  signals : Signal → Event
  suspends resumes marks_closed tears_down : Event
  exits : ℕ → ℤ → Fallible Outcome → Event
  stops : ℕ → Event

-- The group, the world, and the snapshot of the `Close` that has not torn down yet.
pub record State (J W : Type 0) : Type 0 where
  pub group : Group J
  pub world : W
  pub closing : Option ℕ

abbrev pub initial : {J W : Type 0} → Mechanism → J → W → State J W
initial mechanism job w = record { group = new_group mechanism job; world = w; closing = none }

abbrev pub first_snapshot : Option ℕ → Option ℕ → Option ℕ
first_snapshot (some n) later = some n
first_snapshot none later = later

module _ {J W : Type 0} (ops : JobOps J W) (host : Host W) where
  -- The teardown of a pending Close.
  unfoldable pub finish_close : Option ℕ → State J W → State J W
  finish_close none s = s
  finish_close (some n) s =
      let (_, g, w) = tear_down ops host n s.group s.world in
      record { group = g; world = w; closing = none }

  -- The event that the reaper of a process logs.
  unfoldable pub log_exit : Option RunningProcess → ℤ → Fallible Outcome → W → W
  log_exit none elapsed result w = w
  log_exit (some p) elapsed result w = host.log_event (terminal_event p.program elapsed result) w

  unfoldable pub step : Event → State J W → State J W
  step (starts inv config) s =
      let (_, g, w) = start ops host inv config s.group s.world in record s { group = g; world = w }
  step (adopts pid) s =
      let (_, g, w) = adopt ops host pid s.group s.world in record s { group = g; world = w }
  step (signals sig) s = record s { world = (signal ops host sig s.group s.world).1 }
  step suspends s = record s { world = (suspend ops host s.group s.world).1 }
  step resumes s = record s { world = (resume ops host s.group s.world).1 }
  step marks_closed s =
      let (snapshot, g) = mark_closed ops host s.group in
      record s { group = g; closing = first_snapshot s.closing snapshot }
  step tears_down s = finish_close s.closing s
  step (exits i elapsed result) s = record s {
    group = record s.group { procs = update_at i (reap result) s.group.procs };
    world = log_exit (get_elem? s.group.procs i) elapsed result s.world;
  }
  step (stops i) s = record s {
    group = record s.group { procs = update_at i signal_stop s.group.procs };
  }

  unfoldable pub run_schedule : List Event → State J W → State J W
  run_schedule [] s = s
  run_schedule (e ∷ rest) s = run_schedule rest (step e s)
