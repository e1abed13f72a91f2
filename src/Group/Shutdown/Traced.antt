-- ===== src/Group/Shutdown/Traced.antt =====
-- Which calls on its job `Shutdown` of group.go makes, in which order.
use processkit_go.Prelude.{
  ℤ, ℕ, Bool, true, false, Option, none, some, List, [], ◌∷◌, ◌++◌, append_assoc, ◌≡◌, refl, sym,
  ap, ◌∙◌, subst, length, All, if◌then◌else◌, Bool-cases, inl, inr, append-nil,
}
use processkit_go.Errors.{Error}
use processkit_go.Sys.{JobOps}
use processkit_go.Running.{RunningProcess, stop_first, signal_stop}
use processkit_go.Group.{Group, Host, mark_closed, tear_down, sig_term}
use processkit_go.Group.Shutdown.{on_marked, close_group, wait_grace, on_signalled, shutdown}

-- The calls that matter to a teardown.
pub data JobCall : Type 0 where
  called_signal : ℤ → JobCall
  called_kill called_close : JobCall

abbrev pub Traced : Type 0 → Type 0
Traced W = W × List JobCall

module _ {W : Type 0} where
  -- A call whose answer is that of the inner one, and which is written down.
  abbrev noted : {A : Type 0} → JobCall → (W → A × W) → Traced W → A × Traced W
  noted call f v = let (a, w) = f v.0 in (a, (w, v.1 ++ call ∷ []))

  -- A call that is not.
  abbrev passed : {A : Type 0} → (W → A × W) → Traced W → A × Traced W
  passed f v = let (a, w) = f v.0 in (a, (w, v.1))

  abbrev pub traced_job : {J : Type 0} → JobOps J W → JobOps J (Traced W)
  traced_job ops = record {
    configure = ops.configure;
    assign = λ pid j v. (let (e, j', w) = ops.assign pid j v.0 in (e, j', (w, v.1)));
    adopt = λ pid j v. (let (e, j', w) = ops.adopt pid j v.0 in (e, j', (w, v.1)));
    signal = λ sig j. noted (called_signal sig) (ops.signal sig j);
    suspend = λ j. passed (ops.suspend j);
    resume = λ j. passed (ops.resume j);
    kill = λ j. noted called_kill (ops.kill j);
    close = λ j. noted called_close (ops.close j);
  }

  abbrev pub traced_host : Host W → Host (Traced W)
  traced_host host = record {
    prepare_pipes = λ config. passed (host.prepare_pipes config);
    close_pipes = λ v. (host.close_pipes v.0, v.1);
    spawn = λ attr inv. passed (host.spawn attr inv);
    kill_process = λ pid v. (host.kill_process pid v.0, v.1);
    wait_process = λ pid v. (host.wait_process pid v.0, v.1);
    path_dirs = host.path_dirs;
    signal_number = host.signal_number;
    show_int = host.show_int;
    log_event = λ e v. (host.log_event e v.0, v.1);
  }

  abbrev pub traced_wait :
      (ℤ → RunningProcess → W → Bool × W) → ℤ → RunningProcess → Traced W → Bool × Traced W
  traced_wait await_exit grace p = passed (await_exit grace p)

abbrev pub Stopped : RunningProcess → Type 0
Stopped p = p.stopped ≡ true

stop_first-Stopped : (procs : List RunningProcess) → All Stopped (stop_first (length procs) procs)
unfolding stop_first signal_stop
stop_first-Stopped [] = tt
stop_first-Stopped (p ∷ ps) = (refl, stop_first-Stopped ps)

-- The calls of a `Close`, by whether the group was closed.
abbrev pub close_calls : Bool → List JobCall
close_calls true = []
close_calls false = called_kill ∷ called_close ∷ []

-- What a teardown of `g` that began after `calls` has done.
pub record TornDown {J W : Type 0} (g : Group J) (calls : List JobCall)
    (r : Option Error × Group J × Traced W) : Type 0 where
  pub closed : r.1.closed ≡ true
  pub stopped : g.closed ≡ false → All Stopped r.1.procs
  pub called : r.2.1 ≡ calls ++ close_calls g.closed

module _ {J W : Type 0} (ops : JobOps J W) (host : Host W) where
  abbrev on_flag : Group J → Bool → Option ℕ × Group J
  on_flag g b =
      if◌then◌else◌ {A = Option ℕ × Group J} b (none, g)
        (some (length g.procs), record g { closed = true })

  on_marked-TornDown :
      (g : Group J) (v : Traced W) (b : Bool)
      → g.closed ≡ b
      → TornDown g v.1 (on_marked (traced_job ops) (traced_host host) (on_flag g b) v)
  unfolding on_marked tear_down
  on_marked-TornDown g v true e = record {
    closed = e;
    stopped = λ open_. cc;
    called = sym (ap (λ b. v.1 ++ close_calls b) e ∙ append-nil v.1);
  }
  on_marked-TornDown g v false e = record {
    closed = refl;
    stopped = λ _. stop_first-Stopped g.procs;
    called =
        append_assoc v.1 (called_kill ∷ []) (called_close ∷ [])
        ∙ ap (λ b. v.1 ++ close_calls b) (sym e);
  }

  close_group-TornDown :
      (g : Group J) (v : Traced W)
      → TornDown g v.1 (close_group (traced_job ops) (traced_host host) g v)
  unfolding close_group mark_closed
  close_group-TornDown g v = on_marked-TornDown g v g.closed refl

  module _ (await_exit : ℤ → RunningProcess → W → Bool × W) where
    wait_grace_calls :
        (grace : ℤ) (procs : List RunningProcess) (v : Traced W)
        → (wait_grace (traced_job ops) (traced_host host) (traced_wait await_exit) grace procs v).1
          ≡ v.1
    unfolding wait_grace
    wait_grace_calls grace [] v = refl
    wait_grace_calls grace (p ∷ ps) v = elim (Bool-cases (await_exit grace p v.0).0) [
      | inl e ↦ rw (e, wait_grace) (wait_grace_calls grace ps _)
      | inr e ↦ rw (e, wait_grace)
    ]

    on_signalled-TornDown :
        (grace : ℤ) (g : Group J) (r : Option Error × Traced W)
        → TornDown g r.1.1
            (on_signalled (traced_job ops) (traced_host host) (traced_wait await_exit) grace g r)
    unfolding on_signalled
    on_signalled-TornDown grace g (some e, v) = close_group-TornDown g v
    on_signalled-TornDown grace g (none, v) =
        subst
          (λ calls. TornDown g calls (
            close_group (traced_job ops) (traced_host host) g (
              wait_grace (traced_job ops) (traced_host host) (traced_wait await_exit) grace g.procs
                v)))
          (wait_grace_calls grace g.procs v) (close_group-TornDown g _)

    -- Whatever the job answers and however the wait for the members goes, `Shutdown` ends with the group
    -- closed. It first sends SIGTERM to the job, once; of an open group it then kills the job once,
    -- closes it once, and releases the drain of every handle. Of a group that is closed already it makes
    -- no further call, so that the signal is all it does.
    pub shutdown-TornDown :
        (grace : ℤ) (g : Group J) (v : Traced W)
        → TornDown g
            (v.1 ++ called_signal (host.signal_number sig_term) ∷ [])
            (shutdown (traced_job ops) (traced_host host) (traced_wait await_exit) grace g v)
    unfolding shutdown
    shutdown-TornDown grace g v = on_signalled-TornDown grace g _
