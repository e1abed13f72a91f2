-- ===== src/Group/Orphans.antt =====
-- Every process that a group handed out stays tracked by its job (group.go).
use processkit_go.Prelude.{
  arith, ℤ, ℕ, Bool, true, false, Option, none, some, is_some, List, [], ◌∷◌, ◌≡◌, refl, sym, ◌∙◌,
  subst, All, All-append, length, if◌then◌else◌,
}
use processkit_go.Errors.{Error, Fallible, ok, err}
use processkit_go.Result.{Invocation}
use processkit_go.Stream.{StartConfig}
use processkit_go.Sys.{no_attr, JobOps, Contract, SysProcAttr}
use processkit_go.Running.{
  pids, pids-stop_first, pids-append, pids-update_at, stop_keeps_pid, reap_keeps_pid,
  RunningProcess,
}
use processkit_go.Group.{
  Group, Host, on_assigned, on_spawned, on_piped, on_configured, start, on_adopted, adopt,
  mark_closed, tear_down,
}
use processkit_go.Group.Schedule.{
  Event, starts, adopts, signals, suspends, resumes, marks_closed, tears_down, exits, stops, State,
  first_snapshot, finish_close, step,
}

module _ {J W : Type 0} (ops : JobOps J W) (host : Host W) (contract : Contract ops) where
  abbrev pub Tracks : Group J → Type 0
  Tracks g = All (λ q. contract.Tracked q g.job) (pids g.procs)

  -- An operation on the group keeps the flag, and every process that is handed out is tracked.
  record Kept (g g' : Group J) : Type 0 where
    pub tracks : Tracks g'
    pub same_closed : g'.closed ≡ g.closed

  Kept-refl : (g : Group J) → Tracks g → Kept g g
  Kept-refl g h = record { tracks = h; same_closed = refl }

  pub All-keeps :
      {j j' : J} (qs : List ℤ)
      → ((q : ℤ) → contract.Tracked q j → contract.Tracked q j')
      → All (λ q. contract.Tracked q j) qs
      → All (λ q. contract.Tracked q j') qs
  All-keeps [] keep h = tt
  All-keeps (q ∷ qs) keep h = (keep q h.0, All-keeps qs keep h.1)

  on_assigned-Kept :
      (inv : Invocation) (config : StartConfig) (pid : ℤ) (g : Group J) (r : Option Error × J × W)
      → (r.0 ≡ none → contract.Tracked pid r.1)
      → All (λ q. contract.Tracked q r.1) (pids g.procs)
      → Kept g (on_assigned ops host inv config pid g r).1
  unfolding on_assigned
  on_assigned-Kept inv config pid g (none, job, w) new kept = record {
    tracks =
        subst (All (λ q. contract.Tracked q job)) (sym (pids-append g.procs _))
          (All-append _ (pids g.procs) (pid ∷ []) kept (new refl, tt));
    same_closed = refl;
  }
  on_assigned-Kept inv config pid g (some e, job, w) new kept = record {
    tracks = kept;
    same_closed = refl;
  }

  on_spawned-Kept :
      (inv : Invocation) (config : StartConfig) (g : Group J) (r : Fallible ℤ × W)
      → Tracks g
      → Kept g (on_spawned ops host inv config g r).1
  unfolding on_spawned
  on_spawned-Kept inv config g (err e, w) h = Kept-refl g h
  on_spawned-Kept inv config g (ok pid, w) h =
      on_assigned-Kept inv config pid g (ops.assign (some pid) g.job w)
        (contract.assign_tracks pid g.job w)
        (All-keeps (pids g.procs) (λ q. contract.assign_keeps q (some pid) g.job w) h)

  on_piped-Kept :
      (inv : Invocation) (config : StartConfig) (attr : SysProcAttr) (g : Group J)
      (r : Option Error × W)
      → Tracks g
      → Kept g (on_piped ops host inv config attr g r).1
  unfolding on_piped
  on_piped-Kept inv config attr g (some e, w) h = Kept-refl g h
  on_piped-Kept inv config attr g (none, w) h =
      on_spawned-Kept inv config g (host.spawn attr inv w) h

  on_configured-Kept :
      (inv : Invocation) (config : StartConfig) (g : Group J) (w : W) (r : Fallible SysProcAttr)
      → Tracks g
      → Kept g (on_configured ops host inv config g w r).1
  unfolding on_configured
  on_configured-Kept inv config g w (err e) h = Kept-refl g h
  on_configured-Kept inv config g w (ok attr) h =
      on_piped-Kept inv config attr g (host.prepare_pipes config w) h

  if-Kept :
      {A B : Type 0} (c : Bool) (g : Group J) (a b : A × Group J × B)
      → Kept g a.1
      → Kept g b.1
      → Kept g (if c then a else b).1
  if-Kept true g a b hy hn = hy
  if-Kept false g a b hy hn = hn

  start-Kept :
      (inv : Invocation) (config : StartConfig) (g : Group J) (w : W)
      → Tracks g
      → Kept g (start ops host inv config g w).1
  unfolding start
  start-Kept inv config g w h =
      if-Kept g.closed g _ _ (Kept-refl g h)
        (on_configured-Kept inv config g w (ops.configure g.job no_attr) h)

  on_adopted-Kept :
      (pid : ℤ) (job : J) (g : Group J) (e : Option Error) (w : W)
      → All (λ q. contract.Tracked q job) (pids g.procs)
      → Kept g (on_adopted ops host pid job g e w).1
  unfolding on_adopted
  on_adopted-Kept pid job g (some e) w h = record { tracks = h; same_closed = refl }
  on_adopted-Kept pid job g none w h = record { tracks = h; same_closed = refl }

  adopt-Kept : (pid : Option ℤ) (g : Group J) (w : W) → Tracks g → Kept g (adopt ops host pid g w).1
  unfolding adopt
  adopt-Kept none g w h = Kept-refl g h
  adopt-Kept (some pid) g w h = if-Kept g.closed g _ _ (Kept-refl g h) (
      on_adopted-Kept pid _ g _ _
        (All-keeps (pids g.procs) (λ q. contract.adopt_keeps q pid g.job w) h))

  -- Every process that the group handed out is tracked, and a pending Close has closed the group.
  pub record Inv (s : State J W) : Type 0 where
    pub tracks : Tracks s.group
    pub marked : is_some s.closing ≡ true → s.group.closed ≡ true

  Inv-Kept :
      (s : State J W) (g : Group J) (w : W)
      → Inv s
      → Kept s.group g
      → Inv (record { group = g; world = w; closing = s.closing })
  Inv-Kept s g w h k = record { tracks = k.tracks; marked = λ c. k.same_closed ∙ h.marked c }

  same_pids-Tracks :
      (g : Group J) (procs : List RunningProcess)
      → pids procs ≡ pids g.procs
      → Tracks g
      → Tracks (record g { procs = procs })
  same_pids-Tracks g procs e h = subst (All (λ q. contract.Tracked q g.job)) (sym e) h

  mark_closed-Inv :
      (s : State J W) (c : Bool)
      → s.group.closed ≡ c
      → Inv s
      → (let m =
            if◌then◌else◌ {A = Option ℕ × Group J} c
              (none, s.group)
              (some (length s.group.procs), record s.group { closed = true }) in
          Inv (record { group = m.1; world = s.world; closing = first_snapshot s.closing m.0 }))
  mark_closed-Inv s true e h = record { tracks = h.tracks; marked = λ _. e }
  mark_closed-Inv s false e h = record { tracks = h.tracks; marked = λ _. refl }

  finish_close-Inv :
      (closing : Option ℕ) (s : State J W) → Inv s → Inv (finish_close ops host closing s)
  unfolding finish_close tear_down
  finish_close-Inv none s h = h
  finish_close-Inv (some n) s h = record {
    tracks = same_pids-Tracks s.group _ (pids-stop_first n s.group.procs) h.tracks;
    marked = λ e. ground arith;
  }

  pub step-Inv : (e : Event) (s : State J W) → Inv s → Inv (step ops host e s)
  unfolding step mark_closed
  step-Inv (starts inv config) s h =
      Inv-Kept s _ _ h (start-Kept inv config s.group s.world h.tracks)
  step-Inv (adopts pid) s h = Inv-Kept s _ _ h (adopt-Kept pid s.group s.world h.tracks)
  step-Inv (signals sig) s h = record { tracks = h.tracks; marked = h.marked }
  step-Inv suspends s h = record { tracks = h.tracks; marked = h.marked }
  step-Inv resumes s h = record { tracks = h.tracks; marked = h.marked }
  step-Inv marks_closed s h = mark_closed-Inv s s.group.closed refl h
  step-Inv tears_down s h = finish_close-Inv s.closing s h
  step-Inv (exits i elapsed result) s h = record {
    tracks =
        same_pids-Tracks s.group _ (pids-update_at i _ s.group.procs (reap_keeps_pid result))
          h.tracks;
    marked = h.marked;
  }
  step-Inv (stops i) s h = record {
    tracks = same_pids-Tracks s.group _ (pids-update_at i _ s.group.procs stop_keeps_pid) h.tracks;
    marked = h.marked;
  }
