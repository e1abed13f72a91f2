-- ===== src/Probe/Verdicts.antt =====
-- probe.go: what a poll-based probe answers, and when.
use processkit_go.Prelude.{
  arith, ℤ, pos, leb_ℤ, ◌-ℤ◌, ◌+ℤ◌, ℕ, zero, suc, Bool, true, false, Option, none, some, Bytes, ◌≡◌,
  refl, if◌then◌else◌, ap, subst, ◌∙◌,
}
use processkit_go.Errors.{Error, ContextError, context_sentinel, sentinel}
use processkit_go.Probe.{
  Turn, conclude, again, Env, Check, on_slept, on_time, on_alive, on_checked, turn, on_turn, loop,
  poll_until, not_ready, non_negative, nap,
}

module _ {W : Type 0} (env : Env W) (program probe : Bytes) (within : ℤ) (check : Check W) where
  -- Where a turn that starts in a world ends the poll, and with which answer.
  pub data Ended (deadline : ℤ) (w : W) : Option Error → Type 0 where
    ready : (check w).0.0 ≡ true → Ended deadline w none
    gone :
        (check w).0.0 ≡ false
        → (env.exited (check w).1).0 ≡ true
        → Ended deadline w (some (not_ready env program probe within check (check w).0.1))
    late :
        (check w).0.0 ≡ false
        → leb_ℤ (deadline -ℤ (env.now (env.exited (check w).1).1).0) (pos 0) ≡ true
        → Ended deadline w (some (not_ready env program probe within check (check w).0.1))
    stopped :
        (c : ContextError) (v : W)
        → (check w).0.0 ≡ false
        → (env.exited (check w).1).0 ≡ false
        → env.surroundings.ctx_err v ≡ some c
        → Ended deadline w (some (sentinel (context_sentinel c)))

  -- The worlds that the turns of a poll pass through, none of which found the check ready.
  pub data Polls (deadline : ℤ) (w : W) : W → Type 0 where
    here : Polls deadline w w
    turned :
        (v v' : W)
        → Polls deadline w v
        → (check v).0.0 ≡ false
        → (env.exited (check v).1).0 ≡ false
        → turn env program probe within check deadline v ≡ again v'
        → Polls deadline w v'

  abbrev TurnOutcome : ℤ → W → Turn W → Type 0
  TurnOutcome deadline w (conclude r w') = Ended deadline w r
  TurnOutcome deadline w (again w') = ((check w).0.0 ≡ false) × ((env.exited (check w).1).0 ≡ false)

  -- The context has ended, with an error.
  abbrev pub ContextOver : W → Type 0
  ContextOver v = (c : ContextError) × (env.surroundings.ctx_err v ≡ some c)

  slept-TurnOutcome :
      (deadline : ℤ) (w : W) (r : Bool × W)
      → (check w).0.0 ≡ false
      → (env.exited (check w).1).0 ≡ false
      → (r.0 ≡ false → ContextOver r.1)
      → TurnOutcome deadline w (on_slept env program probe within check r)
  unfolding on_slept
  slept-TurnOutcome deadline w (true, v) unready alive over = (unready, alive)
  slept-TurnOutcome deadline w (false, v) unready alive over =
      let (c, e) = over refl in rw (e, on_slept) (stopped c v unready alive e)

  -- Where the `select` of a sleep chose the context, the context has an error.
  module _
      (over : (d : ℤ) (v : W)
        → (env.surroundings.timer d v).0 ≡ false
        → ContextOver (env.surroundings.timer d v).1) where
    on_time-TurnOutcome :
        (deadline : ℤ) (w : W) (t : ℤ × W)
        → (check w).0.0 ≡ false
        → (env.exited (check w).1).0 ≡ false
        → (env.now (env.exited (check w).1).1).0 ≡ t.0
        → TurnOutcome deadline w (on_time env program probe within check deadline (check w).0.1 t)
    unfolding on_time
    on_time-TurnOutcome deadline w (t, v) unready alive now =
        go (leb_ℤ (deadline -ℤ t) (pos 0)) refl
          (slept-TurnOutcome deadline w _ unready alive (over (nap (deadline -ℤ t)) v))
      where
        go :
            (b : Bool)
            → leb_ℤ (deadline -ℤ t) (pos 0) ≡ b
            → TurnOutcome deadline w (
                on_slept env program probe within check
                  (env.surroundings.timer (nap (deadline -ℤ t)) v))
            → TurnOutcome deadline w (
                if b
                then conclude (some (not_ready env program probe within check (check w).0.1)) v
                else on_slept env program probe within check
                    (env.surroundings.timer (nap (deadline -ℤ t)) v))
        go true e slept = late unready (ap (λ x. leb_ℤ (deadline -ℤ x) (pos 0)) now ∙ e)
        go false e slept = slept

    on_alive-TurnOutcome :
        (deadline : ℤ) (w : W) (r : Bool × W)
        → (check w).0.0 ≡ false
        → env.exited (check w).1 ≡ r
        → TurnOutcome deadline w (on_alive env program probe within check deadline (check w).0.1 r)
    unfolding on_alive
    on_alive-TurnOutcome deadline w (true, v) unready e = gone unready (ap (λ r. r.0) e)
    on_alive-TurnOutcome deadline w (false, v) unready e =
        on_time-TurnOutcome deadline w _ unready (ap (λ r. r.0) e) (ap (λ r. (env.now r.1).0) e)

    on_checked-TurnOutcome :
        (deadline : ℤ) (w : W) (r : (Bool × Option Error) × W)
        → check w ≡ r
        → TurnOutcome deadline w (on_checked env program probe within check deadline r)
    unfolding on_checked
    on_checked-TurnOutcome deadline w ((true, e), v) h = ready (ap (λ r. r.0.0) h)
    on_checked-TurnOutcome deadline w ((false, e), v) h =
        subst
          (λ r.
            TurnOutcome deadline w
              (on_alive env program probe within check deadline r.0.1 (env.exited r.1)))
          h (on_alive-TurnOutcome deadline w _ (ap (λ r. r.0.0) h) refl)

    turn-TurnOutcome :
        (deadline : ℤ) (w : W)
        → TurnOutcome deadline w (turn env program probe within check deadline w)
    unfolding turn
    turn-TurnOutcome deadline w = on_checked-TurnOutcome deadline w _ refl

    loop-Ended :
        (fuel : ℕ) (deadline : ℤ) (u w w' : W) (r : Option Error)
        → Polls deadline u w
        → loop env program probe within check fuel deadline w ≡ some (r, w')
        → (v : W) × (Polls deadline u v × Ended deadline v r)
    unfolding loop on_turn
    loop-Ended zero deadline u w w' r polls h = absurd (ground arith)
    loop-Ended (suc fuel) deadline u w w' r polls h =
        go (turn env program probe within check deadline w) refl (turn-TurnOutcome deadline w)
          (λ v. loop-Ended fuel deadline u v w' r) h
      where
        go :
            (t : Turn W)
            → turn env program probe within check deadline w ≡ t
            → TurnOutcome deadline w t
            → ((v : W)
                → Polls deadline u v
                → loop env program probe within check fuel deadline v ≡ some (r, w')
                → (v : W) × (Polls deadline u v × Ended deadline v r))
            → on_turn env program probe within check
                (loop env program probe within check fuel deadline)
                t
              ≡ some (r, w')
            → (v : W) × (Polls deadline u v × Ended deadline v r)
        go (conclude q v) e ended later h =
            (w, (polls, subst (Ended deadline w) (ground arith) ended))
        go (again v) e failed later h = later v (turned w v polls failed.0 failed.1 e) h

    -- A poll-based probe answers as its last turn finds: no error for a check that passed; a NotReadyError
    -- with the error of the last check, if the process has exited or no time is left; or the error of a
    -- context that has ended, for a live process whose check failed. In every turn before, the check
    -- failed and the process was alive. A context that a sleep's select has found done has an error.
    pub poll_until-Ended :
        (fuel : ℕ) (w w' : W) (r : Option Error)
        → poll_until env program probe within check fuel w ≡ some (r, w')
        → (v : W) × (Polls ((env.now w).0 +ℤ non_negative within) (env.now w).1 v
            × Ended ((env.now w).0 +ℤ non_negative within) v r)
    unfolding poll_until
    poll_until-Ended fuel w w' r h = loop-Ended fuel _ _ _ w' r here h
