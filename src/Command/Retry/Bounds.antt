-- ===== src/Command/Retry/Bounds.antt =====
-- How many attempts the retry loop of command.go makes, seen through a recording runner.
use processkit_go.Prelude.{
  ℕ, zero, suc, ◌+◌, ◌≤◌, ◌<◌, true, false, Option, some, List, [], ◌∷◌, ◌++◌, append_assoc, ◌≡◌,
  refl, ◌∙◌, ap, ◌⊎◌, inl, inr, arith, replicate,
}
use processkit_go.Errors.{Fallible, ok, err, errors_is, err_cancelled, Error}
use processkit_go.Result.{Result, Invocation}
use processkit_go.World.{Runner, Surroundings, sleep_ctx}
use processkit_go.Testkit.Recording.{Recorded, recording, beside, calls_of}
use processkit_go.Command.{Cmd, RetryPolicy, invocation}
use processkit_go.Command.Retry.{
  Turn, stop, again, max_attempts_of, classified, pause, judge, attempt, round, loop, retry_run,
}

pub Turn-cases : {T : Type 0} (t : Turn T) → ((r : Fallible T) × (t ≡ stop r)) ⊎ (t ≡ again)
Turn-cases (stop r) = inl (r, refl)
Turn-cases again = inr refl

module _ {W T : Type 0} (s : Surroundings W) (runner : Runner W) (c : Cmd)
    (extract : Result → Fallible T) where
  pub max_attempts-pos : 1 ≤ max_attempts_of c.retry
  max_attempts-pos = ground arith

  pause_calls :
      (tries : ℕ) (e : Error) (w : Recorded W)
      → (pause (beside s) (recording runner) c extract tries e w).1.1 ≡ w.1
  unfolding pause sleep_ctx beside
  pause_calls tries e w = ground arith

  judge_calls :
      (tries : ℕ) (r : Fallible T) (w : Recorded W)
      → (judge (beside s) (recording runner) c extract tries r w).1.1 ≡ w.1
  unfolding judge
  judge_calls tries (ok v) w = refl
  judge_calls tries (err e) w = ground (arith, pause_calls tries e w)

  judge_again :
      (tries : ℕ) (r : Fallible T) (w : Recorded W)
      → (judge (beside s) (recording runner) c extract tries r w).0 ≡ again
      → tries < max_attempts_of c.retry
  unfolding judge
  judge_again tries (ok v) w h = cc
  judge_again tries (err e) w h = ground arith

  pub round_calls :
      (tries : ℕ) (w : Recorded W)
      → (round (beside s) (recording runner) c extract tries w).1.1 ≡ w.1 ++ invocation c ∷ []
  unfolding round attempt recording
  round_calls tries (w, calls) = judge_calls tries _ _

  round_again :
      (tries : ℕ) (w : Recorded W)
      → (round (beside s) (recording runner) c extract tries w).0 ≡ again
      → tries < max_attempts_of c.retry
  unfolding round attempt
  round_again tries w h = judge_again tries _ _ h

  pub regroup :
      (w' w : Recorded W)
      → w'.1 ≡ w.1 ++ invocation c ∷ []
      → (k : ℕ) → w'.1 ++ replicate k (invocation c) ≡ w.1 ++ replicate (suc k) (invocation c)
  regroup w' w e k = rw e (append_assoc w.1 (invocation c ∷ []) (replicate k (invocation c)))

  -- The loop returns, and what it adds to the calls is the one invocation, at most `fuel` times.
  abbrev Answers : ℕ → Recorded W → Option (Fallible T × Recorded W) → Type 0
  Answers fuel w result =
      (r : Fallible T) × (w' : Recorded W) × (k : ℕ) × (result ≡ some (r, w'))
      × (w'.1 ≡ w.1 ++ replicate k (invocation c))
      × (1 ≤ k)
      × (k ≤ fuel)

  loop-Answers :
      (fuel tries : ℕ) (w : Recorded W)
      → tries + fuel ≡ suc (max_attempts_of c.retry)
      → 1 ≤ fuel
      → Answers fuel w (loop (beside s) (recording runner) c extract fuel tries w)
  unfolding loop
  loop-Answers zero tries w e h = absurd (omega arith)
  loop-Answers (suc fuel) tries w e h =
      elim (Turn-cases (round (beside s) (recording runner) c extract tries w).0) [
        | inl (r, t) ↦ rw (t, loop) (r, _, 1, refl, round_calls tries w, omega arith, omega arith)
        | inr t ↦
            let w' = (round (beside s) (recording runner) c extract tries w).1 in
            let more = round_again tries w t in
            let (r, w'', k, ran, calls, low, high) =
              loop-Answers fuel (suc tries) w' (omega arith) (omega arith) in
            rw (t, loop)
              (
                r,
                w'',
                suc k,
                ran,
                calls ∙ regroup w' w (round_calls tries w) k,
                omega arith,
                omega arith,
              )
      ]

-- A verb of a command with a retry policy returns whatever the runner does, after at least one and
-- at most `max_attempts` attempts (one, without a policy), each of them a run of the command's own
-- invocation.
pub retry_run_bounded :
    {W T : Type 0} (s : Surroundings W) (runner : Runner W) (c : Cmd)
    (extract : Result → Fallible T) (w : W) (calls : List Invocation)
    → (r : Fallible T) × (w' : Recorded W) × (k : ℕ) × (retry_run
          (beside s)
          (recording runner)
          c
          extract
          (w, calls)
        ≡ some (r, w'))
      × (calls_of w' ≡ calls ++ replicate k (invocation c))
      × (1 ≤ k)
      × (k ≤ max_attempts_of c.retry)
unfolding retry_run calls_of
retry_run_bounded s runner c extract w calls =
    loop-Answers s runner c extract (max_attempts_of c.retry) 1 (w, calls) (omega arith)
      (max_attempts-pos s runner c extract)

module _ {W T : Type 0} (s : Surroundings W) (runner : Runner W) (c : Cmd)
    (extract : Result → Fallible T) where
  loop_stop :
      (fuel tries : ℕ) (w : W) (r : Fallible T)
      → 1 ≤ fuel
      → (round s runner c extract tries w).0 ≡ stop r
      → loop s runner c extract fuel tries w ≡ some (r, (round s runner c extract tries w).1)
  unfolding loop
  loop_stop zero tries w r h e = absurd (omega arith)
  loop_stop (suc fuel) tries w r h e = rw (e, loop)

  judge_fatal :
      (p : RetryPolicy) (tries : ℕ) (e : Error) (w : W)
      → c.retry ≡ some p
      → (errors_is e err_cancelled ≡ true) ⊎ (classified p.retry_if e ≡ false)
      → judge s runner c extract tries (err e) w ≡ (stop (err e), w)
  unfolding judge
  judge_fatal p tries e w set why = ground arith

  round_fatal :
      (p : RetryPolicy) (tries : ℕ) (w : W) (e : Error)
      → c.retry ≡ some p
      → (attempt s runner c extract w).0 ≡ err e
      → (errors_is e err_cancelled ≡ true) ⊎ (classified p.retry_if e ≡ false)
      → (round s runner c extract tries w ≡ (stop (err e), (attempt s runner c extract w).1))
  unfolding round
  round_fatal p tries w e set failed why =
      rw failed (judge_fatal p tries e (attempt s runner c extract w).1 set why)

-- An attempt that fails with a cancellation, with an error that the classifier does not accept, or
-- with no classifier set, is the last one: its error is returned unchanged, with no pause.
retry_run_fatal :
    {W T : Type 0} (s : Surroundings W) (runner : Runner W) (c : Cmd)
    (extract : Result → Fallible T) (p : RetryPolicy) (w : W) (e : Error)
    → c.retry ≡ some p
    → (attempt s runner c extract w).0 ≡ err e
    → (errors_is e err_cancelled ≡ true) ⊎ (classified p.retry_if e ≡ false)
    → retry_run s runner c extract w ≡ some (err e, (attempt s runner c extract w).1)
unfolding retry_run
retry_run_fatal s runner c extract p w e set failed why =
    let at_once = round_fatal s runner c extract p 1 w e set failed why in
    loop_stop s runner c extract (max_attempts_of c.retry) 1 w (err e)
      (max_attempts-pos s runner c extract) (ap (λ x. x.0) at_once)
    ∙ ap (λ x. some (err e, x.1)) at_once
