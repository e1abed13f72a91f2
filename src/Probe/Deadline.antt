-- ===== src/Probe/Deadline.antt =====
-- probe.go: a poll-based probe ends by its deadline.
use processkit_go.Prelude.{
  arith, ℤ, pos, negsuc, pos_part, leb_ℤ, ◌-ℤ◌, ◌+ℤ◌, ◌-◌, ◌⊎◌, inl, inr, ℕ, zero, suc, ◌+◌, ◌*◌,
  ◌≤◌, ◌<◌, Bool, true, false, Option, some, is_some, Bytes, ◌≡◌, refl, if◌then◌else◌, ap, sym,
  subst, ◌∙◌,
}
use processkit_go.Errors.{Error}
use processkit_go.Probe.{
  Turn, conclude, again, Env, Check, on_slept, on_time, on_alive, on_checked, turn, on_turn, loop,
  poll_until, not_ready, non_negative, nap,
}

abbrev poll_nanos : ℕ
poll_nanos = 50000000

-- What is left of a deadline that has not passed.
left_of :
    (d t : ℕ) → leb_ℤ (pos d -ℤ pos t) (pos 0) ≡ false → (t < d) × (pos d -ℤ pos t ≡ pos (d - t))
unfolding ◌-ℤ◌
left_of d t h = ground arith

nap_cases : (left : ℕ) → (nap (pos left) ≡ pos left) ⊎ (nap (pos left) ≡ pos poll_nanos)
unfolding nap
nap_cases left = ground arith

-- The deadline, from the time of the start.
deadline_of : (t : ℕ) (within : ℤ) → pos t +ℤ non_negative within ≡ pos (t + pos_part within)
unfolding ◌+ℤ◌ non_negative
deadline_of t (pos n) = ground arith
deadline_of t (negsuc n) = ground arith

module _ {W : Type 0} (env : Env W) (program probe : Bytes) (within : ℤ) (check : Check W)
    (clock : W → ℕ) where
  -- A turn that is not the last starts before the deadline, and ends a cadence later or at the deadline.
  abbrev Later : ℕ → W → Turn W → Type 0
  Later d w (conclude r v) = Unit
  Later d w (again v) = (clock w < d) × ((clock w + poll_nanos ≤ clock v) ⊎ (d ≤ clock v))

  module _
      (now_reads : (w : W)
        → ((env.now w).0 ≡ pos (clock (env.now w).1)) × (clock w ≤ clock (env.now w).1))
      (check_takes_time : (w : W) → clock w ≤ clock (check w).1)
      (exited_takes_time : (w : W) → clock w ≤ clock (env.exited w).1)
      (timer_waits : (d : ℕ) (w : W)
        → (env.surroundings.timer (pos d) w).0 ≡ true
        → clock w + d ≤ clock (env.surroundings.timer (pos d) w).1) where
    on_slept-Later :
        (d : ℕ) (w v : W) (k : ℕ)
        → clock w < d
        → clock w ≤ clock v
        → (d ≤ clock v + k) ⊎ (k ≡ poll_nanos)
        → Later d w (on_slept env program probe within check (env.surroundings.timer (pos k) v))
    unfolding on_slept
    on_slept-Later d w v k early passed long =
        go (env.surroundings.timer (pos k) v) (timer_waits k v)
      where
        go :
            (r : Bool × W)
            → (r.0 ≡ true → clock v + k ≤ clock r.1)
            → Later d w (on_slept env program probe within check r)
        go (true, u) waited = (
          early,
          elim long [
            | inl near ↦ inr (omega (arith, near, waited refl))
            | inr full ↦ inl (omega (arith, full, passed, waited refl))
          ],
        )
        go (false, u) waited = tt

    on_time-Later :
        (d : ℕ) (w : W) (last : Option Error) (t : ℕ) (v : W)
        → t ≡ clock v
        → clock w ≤ clock v
        → Later d w (on_time env program probe within check (pos d) last (pos t, v))
    unfolding on_time
    on_time-Later d w last t v now passed =
        go (leb_ℤ (pos d -ℤ pos t) (pos 0)) (λ late. left_of d t late) refl
      where
        napping :
            (t < d) × (pos d -ℤ pos t ≡ pos (d - t))
            → Later d w (
                on_slept env program probe within check
                  (env.surroundings.timer (nap (pos d -ℤ pos t)) v))
        napping left = elim (nap_cases (d - t)) [
          | inl whole ↦
              subst
                (λ k.
                  Later d w (on_slept env program probe within check (env.surroundings.timer k v)))
                (sym (ap nap left.1 ∙ whole))
                (on_slept-Later d w v (d - t) (omega (arith, left.0, now, passed)) passed
                  (inl (omega (arith, now))))
          | inr part ↦
              subst
                (λ k.
                  Later d w (on_slept env program probe within check (env.surroundings.timer k v)))
                (sym (ap nap left.1 ∙ part))
                (on_slept-Later d w v poll_nanos (omega (arith, left.0, now, passed)) passed
                  (inr refl))
        ]

        go :
            (b : Bool)
            → (leb_ℤ (pos d -ℤ pos t) (pos 0) ≡ false → (t < d) × (pos d -ℤ pos t ≡ pos (d - t)))
            → leb_ℤ (pos d -ℤ pos t) (pos 0) ≡ b
            → Later d w (
                if b
                then conclude (some (not_ready env program probe within check last)) v
                else on_slept env program probe within check
                    (env.surroundings.timer (nap (pos d -ℤ pos t)) v))
        go true left e = tt
        go false left e = napping (left e)

    turn-Later : (d : ℕ) (w : W) → Later d w (turn env program probe within check (pos d) w)
    unfolding turn on_checked on_alive
    turn-Later d w = checked (check w) (check_takes_time w)
      where
        timed :
            (last : Option Error) (r : ℤ × W) (v : W)
            → clock w ≤ clock v
            → (r.0 ≡ pos (clock r.1)) × (clock v ≤ clock r.1)
            → Later d w (on_time env program probe within check (pos d) last r)
        timed last r v passed read =
            subst (λ t. Later d w (on_time env program probe within check (pos d) last (t, r.1)))
              (sym read.0)
              (on_time-Later d w last (clock r.1) r.1 refl (omega (arith, passed, read.1)))

        alive :
            (last : Option Error) (r : Bool × W)
            → clock w ≤ clock r.1
            → Later d w (on_alive env program probe within check (pos d) last r)
        alive last (true, v) passed = tt
        alive last (false, v) passed = timed last (env.now v) v passed (now_reads v)

        checked :
            (r : (Bool × Option Error) × W)
            → clock w ≤ clock r.1
            → Later d w (on_checked env program probe within check (pos d) r)
        checked ((true, e), v) passed = tt
        checked ((false, e), v) passed =
            alive e (env.exited v) (omega (arith, passed, exited_takes_time v))

    loop_ends :
        (n d : ℕ) (w : W)
        → d ≤ clock w + n * poll_nanos
        → is_some (loop env program probe within check (suc n) (pos d) w) ≡ true
    unfolding loop on_turn
    loop_ends zero d w near = ended (turn env program probe within check (pos d) w) (turn-Later d w)
      where
        ended :
            (t : Turn W)
            → Later d w t
            → is_some (
                on_turn env program probe within check
                  (loop env program probe within check 0 (pos d))
                  t)
              ≡ true
        ended (conclude r v) later = refl
        ended (again v) later = absurd (omega (arith, near, later.0))
    loop_ends (suc n) d w near =
        ended (turn env program probe within check (pos d) w) (turn-Later d w) (loop_ends n d)
      where
        ended :
            (t : Turn W)
            → Later d w t
            → ((v : W)
                → d ≤ clock v + n * poll_nanos
                → is_some (loop env program probe within check (suc n) (pos d) v) ≡ true)
            → is_some (
                on_turn env program probe within check
                  (loop env program probe within check (suc n) (pos d))
                  t)
              ≡ true
        ended (conclude r v) later next = refl
        ended (again v) later next = next v (elim (later.1) [
          | inl full ↦ omega (arith, near, full)
          | inr past ↦ omega (arith, past)
        ])

    -- A poll-based probe ends: within `n` sleeps of the cadence, if the time that it is given is no longer
    -- than those, the clock that `time.Now` reads never goes back, and a timer that fires has waited
    -- for its duration.
    pub poll_until_ends :
        (n : ℕ) (w : W)
        → pos_part within ≤ n * poll_nanos
        → is_some (poll_until env program probe within check (suc n) w) ≡ true
    unfolding poll_until
    poll_until_ends n w short =
        subst (λ d. is_some (loop env program probe within check (suc n) d (env.now w).1) ≡ true)
          (sym (
            ap (λ t. t +ℤ non_negative within) (now_reads w).0
            ∙ deadline_of (clock (env.now w).1) within))
          (loop_ends n (clock (env.now w).1 + pos_part within) (env.now w).1 (omega (arith, short)))
