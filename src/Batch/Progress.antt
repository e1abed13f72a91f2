-- ===== src/Batch/Progress.antt =====
-- batch.go: the bound and the end of a batch.
use processkit_go.Prelude.{
  arith, ℤ, pos, negsuc, ℕ, suc, ◌+◌, ◌*◌, ◌<◌, ◌≤◌, some, List, [], ◌∷◌, length, ◌≡◌, ◌⊎◌, inl,
  inr, refl, ap,
}
use processkit_go.Errors.{Fallible}
use processkit_go.Result.{Result}
use processkit_go.Batch.{
  slots, Worker, waiting, running, finished, in_flight, outputs, result_first, launched, Acquire,
  acquire_here, acquire_later, Finish, finish_here, finish_later, Step, acquires, finishes,
  OutputAll, begins, steps,
}

slots_positive : (concurrency : ℤ) → 0 < slots concurrency
unfolding slots
slots_positive (pos n) = ground arith
slots_positive (negsuc n) = ground arith

module _ {C : Type 0} where
  -- The steps that are left to the workers.
  remaining : List (Worker C) → ℕ
  remaining [] = 0
  remaining (waiting c ∷ ws) = suc (suc (remaining ws))
  remaining (running c ∷ ws) = suc (remaining ws)
  remaining (finished c r ∷ ws) = remaining ws

  launched_counts :
      (cmds : List C)
      → (in_flight (launched cmds) ≡ 0) × (remaining (launched cmds) ≡ 2 * length cmds)
  unfolding launched remaining in_flight
  launched_counts [] = (refl, omega arith)
  launched_counts (c ∷ cmds) = ((launched_counts cmds).0, omega (arith, (launched_counts cmds).1))

  Acquire-counts :
      (ws ws' : List (Worker C))
      → Acquire ws ws'
      → (in_flight ws' ≡ suc (in_flight ws)) × (remaining ws ≡ suc (remaining ws'))
  unfolding remaining in_flight
  Acquire-counts _ _ (acquire_here c ws) = (refl, refl)
  Acquire-counts _ _ (acquire_later x ws ws' s) = later x (Acquire-counts ws ws' s)
    where
      later :
          (x : Worker C)
          → (in_flight ws' ≡ suc (in_flight ws)) × (remaining ws ≡ suc (remaining ws'))
          → (in_flight (x ∷ ws') ≡ suc (in_flight (x ∷ ws)))
            × (remaining (x ∷ ws) ≡ suc (remaining (x ∷ ws')))
      later (waiting c) h = (h.0, omega (arith, h.1))
      later (running c) h = (omega (arith, h.0), omega (arith, h.1))
      later (finished c r) h = h

  -- Whether the workers are done, one of them runs, or one waits while none runs.
  data Phase (ws : List (Worker C)) : Type 0 where
    all_done : (rs : List (Fallible Result)) → in_flight ws ≡ 0 → outputs ws ≡ some rs → Phase ws
    may_acquire : (ws' : List (Worker C)) → in_flight ws ≡ 0 → Acquire ws ws' → Phase ws
    some_run : 0 < in_flight ws → Phase ws

  cases_of : (ws : List (Worker C)) → Phase ws
  unfolding in_flight outputs
  cases_of [] = all_done [] refl refl
  cases_of (running c ∷ ws) = some_run (omega arith)
  cases_of (waiting c ∷ ws) = waits (cases_of ws)
    where
      waits : Phase ws → Phase (waiting c ∷ ws)
      waits (all_done rs idle e) = may_acquire (running c ∷ ws) idle (acquire_here c ws)
      waits (may_acquire ws' idle s) = may_acquire (running c ∷ ws) idle (acquire_here c ws)
      waits (some_run busy) = some_run busy
  cases_of (finished c r ∷ ws) = after (cases_of ws)
    where
      after : Phase ws → Phase (finished c r ∷ ws)
      after (all_done rs idle e) = all_done (r ∷ rs) idle (ap (result_first r) e)
      after (may_acquire ws' idle s) =
          may_acquire (finished c r ∷ ws') idle (acquire_later (finished c r) ws ws' s)
      after (some_run busy) = some_run busy

module _ {C W : Type 0} (output : C → W → Fallible Result × W) where
  Finish-counts :
      (ws ws' : List (Worker C)) (w w' : W)
      → Finish output ws w ws' w'
      → (in_flight ws ≡ suc (in_flight ws')) × (remaining ws ≡ suc (remaining ws'))
  unfolding remaining in_flight
  Finish-counts _ _ _ _ (finish_here c ws w) = (refl, refl)
  Finish-counts _ _ _ _ (finish_later x ws ws' w w' s) = later x (Finish-counts ws ws' w w' s)
    where
      later :
          (x : Worker C)
          → (in_flight ws ≡ suc (in_flight ws')) × (remaining ws ≡ suc (remaining ws'))
          → (in_flight (x ∷ ws) ≡ suc (in_flight (x ∷ ws')))
            × (remaining (x ∷ ws) ≡ suc (remaining (x ∷ ws')))
      later (waiting c) h = (h.0, omega (arith, h.1))
      later (running c) h = (omega (arith, h.0), omega (arith, h.1))
      later (finished c r) h = h

  -- A run that is in flight can finish.
  busy_moves :
      (ws : List (Worker C)) (w : W)
      → 0 < in_flight ws
      → (ws' : List (Worker C)) × ((w' : W) × Finish output ws w ws' w')
  unfolding in_flight
  busy_moves [] w busy = absurd (omega arith)
  busy_moves (running c ∷ ws) w busy = (_, (_, finish_here c ws w))
  busy_moves (waiting c ∷ ws) w busy =
      let rest = busy_moves ws w busy in
      (_, (rest.1.0, finish_later (waiting c) ws rest.0 w rest.1.0 rest.1.1))
  busy_moves (finished c r ∷ ws) w busy =
      let rest = busy_moves ws w busy in
      (_, (rest.1.0, finish_later (finished c r) ws rest.0 w rest.1.0 rest.1.1))

  OutputAll-counts :
      (concurrency : ℤ) (cmds : List C) (w w' : W) (n : ℕ) (ws : List (Worker C))
      → OutputAll output concurrency cmds w n ws w'
      → (in_flight ws ≤ slots concurrency) × (n + remaining ws ≡ 2 * length cmds)
  OutputAll-counts concurrency cmds w _ _ _ begins =
      let start = launched_counts cmds in (omega (arith, start.0), omega (arith, start.1))
  OutputAll-counts concurrency cmds w _ _ _ (steps n ws ws' v v' before (acquires _ _ _ free s)) =
      let h = OutputAll-counts concurrency cmds w v n ws before in
      let counts = Acquire-counts ws ws' s in
      (omega (arith, free, counts.0), omega (arith, h.1, counts.1))
  OutputAll-counts concurrency cmds w _ _ _ (steps n ws ws' v v' before (finishes _ _ _ _ s)) =
      let h = OutputAll-counts concurrency cmds w v n ws before in
      let counts = Finish-counts ws ws' v v' s in
      (omega (arith, h.0, counts.0), omega (arith, h.1, counts.1))

  -- At every moment of a batch, at most `concurrency` runs are in flight (one, if that is less than one),
  -- and either every command has its result or a step can be made; after two steps for each command
  -- nothing is left to do. So every batch ends.
  pub OutputAll-ends :
      (concurrency : ℤ) (cmds : List C) (w w' : W) (n : ℕ) (ws : List (Worker C))
      → OutputAll output concurrency cmds w n ws w'
      → (in_flight ws ≤ slots concurrency)
        × (n ≤ 2 * length cmds)
        × (((rs : List (Fallible Result)) × (outputs ws ≡ some rs))
            ⊎ ((ws' : List (Worker C)) × ((v : W) × Step output (slots concurrency) ws w' ws' v)))
  OutputAll-ends concurrency cmds w w' n ws run =
      let counts = OutputAll-counts concurrency cmds w w' n ws run in
      (counts.0, omega (arith, counts.1), go (cases_of ws))
    where
      go :
          Phase ws
          → ((rs : List (Fallible Result)) × (outputs ws ≡ some rs))
            ⊎ ((ws' : List (Worker C)) × ((v : W) × Step output (slots concurrency) ws w' ws' v))
      go (all_done rs idle e) = inl (rs, e)
      go (may_acquire ws' idle s) =
          inr (ws', (w', acquires ws ws' w' (omega (arith, idle, slots_positive concurrency)) s))
      go (some_run busy) =
          let next = busy_moves ws w' busy in
          inr (next.0, (next.1.0, finishes ws next.0 w' next.1.0 next.1.1))
