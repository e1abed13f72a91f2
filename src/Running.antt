-- ===== src/Running.antt =====
-- running.go: the live handle to a process of a group. A channel that is only ever closed is a Boolean:
-- `stopped` for `stop`, `finished` (with the result that `Wait` reads) for `done`.
use processkit_go.Prelude.{
  ℤ, pos, ℕ, zero, suc, Bool, true, Option, none, some, is_none, List, [], ◌∷◌, ◌++◌, map, Bytes,
  ◌≡◌, refl, ap,
}
use processkit_go.Outcome.{Outcome, Mechanism, ProcessState, Platform, outcome_of, exited}
use processkit_go.Errors.{ContextError, context_sentinel, Error, sentinel, Fallible, ok, err}
use processkit_go.Log.{LogEvent, process_exited, wait_failed}

pub record RunningProcess : Type 0 where
  pub pid : ℤ
  pub program : Bytes
  pub mechanism : Mechanism
  pub stopped : Bool
  pub has_lines : Bool
  pub lines_closed : Bool
  pub finished : Option (Fallible Outcome)

-- `signalStop`.
unfoldable pub signal_stop : RunningProcess → RunningProcess
signal_stop p = record p { stopped = true }

-- `RunningProcess.Kill`, with `os.Process.Kill` as a parameter.
unfoldable pub kill_running :
    {W : Type 0}
    → (ℤ → W → Option Error × W)
    → RunningProcess
    → W
    → Option Error × RunningProcess × W
unfolding signal_stop
kill_running os_kill p w = let (failed, w') = os_kill p.pid w in (failed, signal_stop p, w')

-- The exit status that `reap` records: the process state, then the error of Wait, then a clean exit.
unfoldable pub reaped : Platform → Option ProcessState → Option Error → Fallible Outcome
reaped platform (some ps) wait_err = ok (outcome_of platform ps)
reaped platform none (some e) = err e
reaped platform none none = ok (exited (pos 0))

-- The terminal event of a process, from what it recorded and the time since its start.
unfoldable pub terminal_event : Bytes → ℤ → Fallible Outcome → LogEvent
terminal_event program elapsed (ok outcome) = process_exited program outcome elapsed
terminal_event program elapsed (err e) = wait_failed program e

-- `reap`, once the pipes are drained and `cmd.Wait` has returned.
unfoldable pub reap : Fallible Outcome → RunningProcess → RunningProcess
reap result p = record p { finished = some result; lines_closed = p.has_lines }

-- The results that the `select` of `Wait` can return.
pub data Waits (ctx : Option ContextError) (p : RunningProcess) : Fallible Outcome → Type 0 where
  wait_done : (r : Fallible Outcome) → p.finished ≡ some r → Waits ctx p r
  wait_ctx : (c : ContextError) → ctx ≡ some c → Waits ctx p (err (sentinel (context_sentinel c)))

-- A process that has not exited, for `Processes`.
abbrev pub is_live : RunningProcess → Bool
is_live p = is_none p.finished

abbrev pub pids : List RunningProcess → List ℤ
pids procs = map (λ p. p.pid) procs

-- A change of the handle at an index.
unfoldable pub update_at :
    ℕ → (RunningProcess → RunningProcess) → List RunningProcess → List RunningProcess
update_at i change [] = []
update_at zero change (p ∷ ps) = change p ∷ ps
update_at (suc i) change (p ∷ ps) = p ∷ update_at i change ps

-- `signalStop` of the first handles, those of a snapshot.
unfoldable pub stop_first : ℕ → List RunningProcess → List RunningProcess
unfolding signal_stop
stop_first zero procs = procs
stop_first (suc n) [] = []
stop_first (suc n) (p ∷ ps) = signal_stop p ∷ stop_first n ps

pub pids-stop_first : (n : ℕ) (procs : List RunningProcess) → pids (stop_first n procs) ≡ pids procs
unfolding stop_first
pids-stop_first zero procs = refl
pids-stop_first (suc n) [] = refl
pids-stop_first (suc n) (p ∷ ps) = ap (λ l. p.pid ∷ l) (pids-stop_first n ps)

pub pids-update_at :
    (i : ℕ) (change : RunningProcess → RunningProcess) (procs : List RunningProcess)
    → ((p : RunningProcess) → (change p).pid ≡ p.pid)
    → pids (update_at i change procs) ≡ pids procs
unfolding update_at
pids-update_at i change [] same = refl
pids-update_at zero change (p ∷ ps) same = ap (λ q. q ∷ pids ps) (same p)
pids-update_at (suc i) change (p ∷ ps) same = ap (λ l. p.pid ∷ l) (pids-update_at i change ps same)

pub pids-append : (ps qs : List RunningProcess) → pids (ps ++ qs) ≡ pids ps ++ pids qs
pids-append [] qs = refl
pids-append (p ∷ ps) qs = ap (λ l. p.pid ∷ l) (pids-append ps qs)

pub stop_keeps_pid : (p : RunningProcess) → (signal_stop p).pid ≡ p.pid
unfolding signal_stop
stop_keeps_pid p = refl

pub reap_keeps_pid : (result : Fallible Outcome) (p : RunningProcess) → (reap result p).pid ≡ p.pid
unfolding reap
reap_keeps_pid result p = refl
