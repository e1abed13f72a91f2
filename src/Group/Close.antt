-- ===== src/Group/Close.antt =====
-- The race between Start and Close (group.go): no started process escapes the kill of Close.
use processkit_go.Prelude.{
  arith, ℤ, ℕ, true, Option, none, some, is_some, List, [], ◌∷◌, ◌≡◌, refl, sym, ◌∙◌, ap, subst,
  All, if◌then◌else◌, length, codes,
}
use processkit_go.Outcome.{Mechanism}
use processkit_go.Sys.{no_attr, JobOps, Contract}
use processkit_go.Running.{pids, pids-stop_first, pids-update_at}
use processkit_go.Group.{Group, Host, start, adopt, mark_closed, tear_down}
use processkit_go.Group.Schedule.{
  Event, starts, adopts, signals, suspends, resumes, marks_closed, tears_down, exits, stops, State,
  initial, finish_close, step, run_schedule,
}
use processkit_go.Group.Orphans.{Inv, step-Inv}
use processkit_go.Errors.{Error, start_error, sentinel, err, err_group_closed}
use processkit_go.Result.{Invocation}
use processkit_go.Stream.{StartConfig}
use processkit_go.Running.{stop_keeps_pid, reap_keeps_pid}
use processkit_go.Group.{on_adopted, on_configured, map_unsupported}

-- What no event changes once the group is closed.
record Sealed {J : Type 0} (g g' : Group J) : Type 0 where
  pub still_closed : g'.closed ≡ true
  pub same_pids : pids g'.procs ≡ pids g.procs

Sealed-same : {J : Type 0} (g g' : Group J) → g.closed ≡ true → g' ≡ g → Sealed g g'
Sealed-same g g' c e = record {
  still_closed = ap (λ (h : Group _). h.closed) e ∙ c;
  same_pids = ap (λ (h : Group _). pids h.procs) e;
}

module _ {J W : Type 0} (ops : JobOps J W) (host : Host W) where
  start-closed :
      (inv : Invocation) (config : StartConfig) (g : Group J) (w : W)
      → g.closed ≡ true
      → (start ops host inv config g w).1 ≡ g
  unfolding start
  start-closed inv config g w c =
      ap
        (λ b.
          (if b
            then (err (start_error inv.program (sentinel err_group_closed)), g, w)
            else on_configured ops host inv config g w (ops.configure g.job no_attr)).1)
        c

  adopt-closed :
      (pid : Option ℤ) (g : Group J) (w : W) → g.closed ≡ true → (adopt ops host pid g w).1 ≡ g
  unfolding adopt
  adopt-closed none g w c = refl
  adopt-closed (some pid) g w c =
      ap
        (λ b.
          (if◌then◌else◌ {A = Option Error × Group J × W} b (some (sentinel err_group_closed), g, w)
            (on_adopted ops host pid (ops.adopt pid g.job w).1 g
              (map_unsupported (ops.adopt pid g.job w).0 (codes "adopt"))
              (ops.adopt pid g.job w).2)).1)
        c

  mark_closed-same : (g : Group J) → g.closed ≡ true → (mark_closed ops host g).1 ≡ g
  unfolding mark_closed
  mark_closed-same g c =
      ap
        (λ b.
          (if◌then◌else◌ {A = Option ℕ × Group J} b (none, g)
            (some (length g.procs), record g { closed = true })).1)
        c

  finish_close-Sealed :
      (closing : Option ℕ) (s : State J W)
      → s.group.closed ≡ true
      → Sealed s.group (finish_close ops host closing s).group
  unfolding finish_close tear_down
  finish_close-Sealed none s c = Sealed-same s.group s.group c refl
  finish_close-Sealed (some n) s c = record {
    still_closed = c;
    same_pids = pids-stop_first n s.group.procs;
  }

  step-Sealed :
      (e : Event) (s : State J W) → s.group.closed ≡ true → Sealed s.group (step ops host e s).group
  unfolding step
  step-Sealed (starts inv config) s c =
      Sealed-same s.group _ c (start-closed inv config s.group s.world c)
  step-Sealed (adopts pid) s c = Sealed-same s.group _ c (adopt-closed pid s.group s.world c)
  step-Sealed (signals sig) s c = Sealed-same s.group _ c refl
  step-Sealed suspends s c = Sealed-same s.group _ c refl
  step-Sealed resumes s c = Sealed-same s.group _ c refl
  step-Sealed marks_closed s c = Sealed-same s.group _ c (mark_closed-same s.group c)
  step-Sealed tears_down s c = finish_close-Sealed s.closing s c
  step-Sealed (exits i elapsed result) s c = record {
    still_closed = c;
    same_pids = pids-update_at i _ s.group.procs (reap_keeps_pid result);
  }
  step-Sealed (stops i) s c = record {
    still_closed = c;
    same_pids = pids-update_at i _ s.group.procs stop_keeps_pid;
  }

  run_schedule-pids :
      (events : List Event) (s : State J W)
      → s.group.closed ≡ true
      → pids (run_schedule ops host events s).group.procs ≡ pids s.group.procs
  unfolding run_schedule
  run_schedule-pids [] s c = refl
  run_schedule-pids (e ∷ rest) s c =
      let now = step-Sealed e s c in
      run_schedule-pids rest (step ops host e s) now.still_closed ∙ now.same_pids

module _ {J W : Type 0} (ops : JobOps J W) (host : Host W) (contract : Contract ops) where
  run_schedule-Inv :
      (events : List Event) (s : State J W)
      → Inv ops host contract s
      → Inv ops host contract (run_schedule ops host events s)
  unfolding run_schedule
  run_schedule-Inv [] s h = h
  run_schedule-Inv (e ∷ rest) s h =
      run_schedule-Inv rest (step ops host e s) (step-Inv ops host contract e s h)

  initial-Inv :
      (mechanism : Mechanism) (job : J) (w : W) → Inv ops host contract (initial mechanism job w)
  unfolding processkit_go.Group.new_group
  initial-Inv mechanism job w = record { tracks = tt; marked = λ e. ground arith }

  All-Reached :
      (job : J) (w : W) (qs : List ℤ)
      → All (λ q. contract.Tracked q job) qs
      → All (λ q. contract.Reached q (ops.close job (ops.kill job w).1).1) qs
  All-Reached job w [] h = tt
  All-Reached job w (q ∷ qs) h =
      (contract.close_keeps q job _ (contract.kill_reaches q job w h.0), All-Reached job w qs h.1)

  finish_close-Reached :
      (closing : Option ℕ) (s : State J W)
      → is_some closing ≡ true
      → All (λ q. contract.Tracked q s.group.job) (pids s.group.procs)
      → All (λ q. contract.Reached q (finish_close ops host closing s).world) (pids s.group.procs)
  unfolding finish_close tear_down
  finish_close-Reached none s pending h = absurd (ground arith)
  finish_close-Reached (some n) s pending h = All-Reached s.group.job _ (pids s.group.procs) h

  -- Start and Close may be interleaved in any way with each other and with the other operations of a
  -- new group: if after some events a Close has marked the group and not yet torn it down, then its
  -- teardown has reached, by its end, every process of which the group has a handle, now and after
  -- whatever events follow. The job is one that tracks what it was assigned, whose kill reaches what it
  -- tracks, and whose close does not undo that.
  pub run_schedule-no_orphan :
      (mechanism : Mechanism) (job : J) (w : W) (before after : List Event)
      → is_some (run_schedule ops host before (initial mechanism job w)).closing ≡ true
      → (let s =
            step ops host tears_down (run_schedule ops host before (initial mechanism job w)) in
          All (λ q. contract.Reached q s.world) (pids (run_schedule ops host after s).group.procs))
  unfolding step
  run_schedule-no_orphan mechanism job w before after pending =
      let s = run_schedule ops host before (initial mechanism job w) in
      let inv = run_schedule-Inv before _ (initial-Inv mechanism job w) in
      let torn = finish_close-Sealed ops host s.closing s (inv.marked pending) in
      subst (All (λ q. contract.Reached q (finish_close ops host s.closing s).world))
        (sym (run_schedule-pids ops host after _ torn.still_closed ∙ torn.same_pids))
        (finish_close-Reached s.closing s pending inv.tracks)
