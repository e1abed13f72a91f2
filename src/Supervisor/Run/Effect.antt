-- ===== src/Supervisor/Run/Effect.antt =====
-- What one incarnation of `Supervisor.Run` leads to, in every world.
use processkit_go.Prelude.{
  ℤ, pos, ltb_ℤ, leb_ℤ, suc, ◌≤◌, Bool, true, false, Option, none, some, is_some, Bytes, ◌≡◌, ◌⊎◌,
  inl, inr, refl, ◌&&◌, arith, Bool-cases,
}
use processkit_go.Errors.{ContextError, cancel_error, Fallible, err}
use processkit_go.Result.{Invocation, Result}
use processkit_go.World.{Runner, sleep_ctx}
use processkit_go.Floats.{Floats}
use processkit_go.Supervisor.{SupervisionOutcome, Supervisor, record_failure}
use processkit_go.Supervisor.Run.{
  Turn, conclude, continue, Env, Progress, crashed_of, verdict, cancelled, rest_for, storm_guard,
  guarded, back_off, wait_turn, after_run, incarnation,
}

-- The turn is over by a cancellation of the caller's.
pub data Aborted {S : Type 0} (program : Bytes) (turn : Turn S) : Type 0 where
  aborted :
      (c : Option ContextError)
      → turn ≡ conclude (err (cancel_error program c))
      → Aborted program turn

module _ (f : Floats) (s : Supervisor f) where
  -- A pause of the storm guard was taken, or not.
  pub record Paused (p p' : Progress f) : Type 0 where
    pub same_restarts : p'.restarts ≡ p.restarts
    pub at_most_one : p'.storm_pauses ≤ suc p.storm_pauses
    pub none_lost : p.storm_pauses ≤ p'.storm_pauses
    pub only_if_on : leb_ℤ s.storm_pause (pos 0) ≡ true → p'.storm_pauses ≡ p.storm_pauses

  pub record Advanced (p p' : Progress f) : Type 0 where
    pub one_more : p'.restarts ≡ suc p.restarts
    pub at_most_one : p'.storm_pauses ≤ suc p.storm_pauses
    pub none_lost : p.storm_pauses ≤ p'.storm_pauses
    pub only_if_on : leb_ℤ s.storm_pause (pos 0) ≡ true → p'.storm_pauses ≡ p.storm_pauses

  pub data Effect (program : Bytes) (p : Progress f) (res : Fallible Result)
      (turn : Turn (Progress f)) : Type 0 where
    aborts : Aborted program turn → Effect program p res turn
    concludes :
        (r : Fallible SupervisionOutcome)
        → verdict f s p res ≡ some r
        → turn ≡ conclude r
        → Effect program p res turn
    goes_on :
        (p' : Progress f)
        → verdict f s p res ≡ none
        → Advanced p p'
        → turn ≡ continue p'
        → Effect program p res turn

  module _ {W : Type 0} (env : Env f W) (program : Bytes) where
    pub rest_for_cases :
        (d : ℤ) (p : Progress f) (w : W)
        → ((rest_for f env program d p w).0 ≡ continue p)
          ⊎ Aborted program (rest_for f env program d p w).0
    unfolding rest_for cancelled
    rest_for_cases d p w = elim (Bool-cases (sleep_ctx env.surroundings d w).0) [
      | inl e ↦ inl (rw e)
      | inr e ↦ inr (aborted (env.surroundings.ctx_err (sleep_ctx env.surroundings d w).1) (rw e))
    ]

    abbrev GuardCases : Progress f → Turn (Progress f) → Type 0
    GuardCases p turn =
        ((p' : Progress f) × (turn ≡ continue p') × Paused p p') ⊎ Aborted program turn

    rest_for_guard :
        (d : ℤ) (p q : Progress f) (w : W)
        → Paused p q
        → GuardCases p (rest_for f env program d q w).0
    rest_for_guard d p q w h = elim (rest_for_cases d q w) [ inl e ↦ inl (q, e, h) | inr a ↦ inr a ]

    storm_guard_cases :
        (p : Progress f) (w : W)
        → leb_ℤ s.storm_pause (pos 0) ≡ false
        → GuardCases p (storm_guard f env program s p w).0
    unfolding storm_guard
    storm_guard_cases p w on =
        elim (Bool-cases (
          f.above (record_failure f p.storm (env.now w).0 s.failure_decay).score
            s.failure_threshold)) [
              | inl e ↦ rw (e, storm_guard) (rest_for_guard _ p _ _ (ground arith))
              | inr e ↦ rw (e, storm_guard) (inl (_, refl, ground arith))
            ]

    guarded_cases :
        (crashed : Bool) (p : Progress f) (w : W)
        → GuardCases p (guarded f env program s crashed p w).0
    unfolding guarded
    guarded_cases crashed p w = elim (Bool-cases (crashed && ltb_ℤ (pos 0) s.storm_pause)) [
      | inl e ↦ rw (e, guarded) (storm_guard_cases p w (ground arith))
      | inr e ↦ rw (e, guarded) (inl (p, refl, ground arith))
    ]

    back_off_cases :
        (p q : Progress f) (w : W)
        → Paused p q
        → ((p' : Progress f) × ((back_off f env program s q w).0 ≡ continue p') × Advanced p p')
          ⊎ Aborted program (back_off f env program s q w).0
    unfolding back_off
    back_off_cases p q w h = elim (rest_for_cases _ _ _) [
      | inl e ↦ inl (_, e, ground arith)
      | inr a ↦ inr a
    ]

    -- The guard's turn, then the backoff.
    wait_turn_cases :
        (p : Progress f) (turn : Turn (Progress f)) (w : W)
        → GuardCases p turn
        → ((p' : Progress f) × ((wait_turn f env program s (turn, w)).0 ≡ continue p')
            × Advanced p p')
          ⊎ Aborted program (wait_turn f env program s (turn, w)).0
    unfolding wait_turn
    wait_turn_cases p turn w (inl (q, e, h)) = rw (e, wait_turn) (back_off_cases p q w h)
    wait_turn_cases p turn w (inr (aborted c e)) = rw (e, wait_turn) (inr (aborted c refl))

    after_run-Effect :
        (p : Progress f) (res : Fallible Result) (w : W)
        → Effect program p res (after_run f env program s p (res, w)).0
    unfolding after_run
    after_run-Effect p res w = go (verdict f s p res) refl
      where
        onwards :
            verdict f s p res ≡ none
            → ((p' : Progress f) × ((wait_turn f env program s
                    (guarded f env program s (crashed_of res) p w)).0
                  ≡ continue p')
                × Advanced p p')
              ⊎ Aborted program
                  (wait_turn f env program s (guarded f env program s (crashed_of res) p w)).0
            → Effect program p res (after_run f env program s p (res, w)).0
        onwards e (inl (p', turn, adv)) = goes_on p' e adv (rw (e, after_run) turn)
        onwards e (inr (aborted c turn)) = aborts (aborted c (rw (e, after_run) turn))

        go :
            (v : Option (Fallible SupervisionOutcome))
            → verdict f s p res ≡ v
            → Effect program p res (after_run f env program s p (res, w)).0
        go (some r) e = concludes r e (rw (e, after_run))
        go none e = onwards e (wait_turn_cases p _ _ (guarded_cases (crashed_of res) p w))

    -- Unless the context has ended before the run, the effect is that of what the runner returned.
    pub incarnation-Effect :
        (runner : Runner W) (inv : Invocation) (p : Progress f) (w : W)
        → Effect program p (runner inv w).0 (incarnation f env program s runner inv p w).0
    unfolding incarnation cancelled
    incarnation-Effect runner inv p w = elim (Bool-cases (is_some (env.surroundings.ctx_err w))) [
      | inl e ↦ aborts (aborted (env.surroundings.ctx_err w) (rw (e, incarnation)))
      | inr e ↦ rw (e, incarnation) (after_run-Effect p (runner inv w).0 (runner inv w).1)
    ]
