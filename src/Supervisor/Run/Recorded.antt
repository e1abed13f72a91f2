-- ===== src/Supervisor/Run/Recorded.antt =====
-- What `Supervisor.Run` of supervisor.go asks of a recording runner in one incarnation.
use processkit_go.Prelude.{
  ℤ, Bool, Option, none, some, is_some, Bytes, [], ◌∷◌, ◌++◌, ◌≡◌, ◌⊎◌, inl, inr, refl, ◌∙◌, arith,
  Bool-cases,
}
use processkit_go.Errors.{Fallible}
use processkit_go.Result.{Invocation, Result}
use processkit_go.World.{Runner, sleep_ctx}
use processkit_go.Floats.{Floats}
use processkit_go.Testkit.Recording.{Recorded, recording, beside}
use processkit_go.Supervisor.{SupervisionOutcome, Supervisor, apply_jitter, record_failure}
use processkit_go.Supervisor.Run.{
  Turn, conclude, continue, Env, Progress, crashed_of, verdict, cancelled, rest_for, storm_guard,
  guarded, back_off, wait_turn, after_run, incarnation,
}
use processkit_go.Supervisor.Run.Effect.{Aborted, aborted}

-- The surroundings beside a recorder, which changes none of them.
unfoldable pub beside_env : (f : Floats) {W : Type 0} → Env f W → Env f (Recorded W)
beside_env f env = record {
  surroundings = beside env.surroundings;
  now = λ w. (let (t, w') = env.now w.0 in (t, (w', w.1)));
  rng = λ w. (let (x, w') = env.rng w.0 in (x, (w', w.1)));
}

-- The calls that the recorder has seen grow by the supervised invocation alone.
module _ (f : Floats) (s : Supervisor f) {W : Type 0} (env : Env f W) (program : Bytes)
    (runner : Runner W) (inv : Invocation) where
  rest_for_calls :
      (d : ℤ) (p : Progress f) (w : Recorded W)
      → (rest_for f (beside_env f env) program d p w).1.1 ≡ w.1
  unfolding rest_for sleep_ctx beside beside_env
  rest_for_calls d p w = ground arith

  apply_jitter_calls :
      (d : ℤ) (w : Recorded W) → (apply_jitter f (beside_env f env).rng d s.jitter w).1.1 ≡ w.1
  unfolding apply_jitter beside_env
  apply_jitter_calls d w = ground arith

  back_off_calls :
      (p : Progress f) (w : Recorded W) → (back_off f (beside_env f env) program s p w).1.1 ≡ w.1
  unfolding back_off beside_env beside
  back_off_calls p w = rest_for_calls _ _ _ ∙ apply_jitter_calls _ w

  wait_turn_calls :
      (turn : Turn (Progress f)) (w : Recorded W)
      → (wait_turn f (beside_env f env) program s (turn, w)).1.1 ≡ w.1
  unfolding wait_turn
  wait_turn_calls (conclude r) w = refl
  wait_turn_calls (continue p) w = back_off_calls p w

  storm_guard_calls :
      (p : Progress f) (w : Recorded W) → (storm_guard f (beside_env f env) program s p w).1.1 ≡ w.1
  unfolding storm_guard beside_env beside
  storm_guard_calls p w =
      elim (Bool-cases (
        f.above (record_failure f p.storm (env.now w.0).0 s.failure_decay).score
          s.failure_threshold)) [
            | inl e ↦
                rw (e, storm_guard)
                  (rest_for_calls _ _ _
                    ∙ apply_jitter_calls s.storm_pause ((beside_env f env).now w).1)
            | inr e ↦ rw (e, storm_guard)
          ]

  guarded_calls :
      (crashed : Bool) (p : Progress f) (w : Recorded W)
      → (guarded f (beside_env f env) program s crashed p w).1.1 ≡ w.1
  unfolding guarded
  guarded_calls crashed p w = ground (arith, storm_guard_calls p w)

  after_run_calls :
      (p : Progress f) (res : Fallible Result) (w : Recorded W)
      → (after_run f (beside_env f env) program s p (res, w)).1.1 ≡ w.1
  unfolding after_run
  after_run_calls p res w = go (verdict f s p res) refl
    where
      go :
          (v : Option (Fallible SupervisionOutcome))
          → verdict f s p res ≡ v
          → (after_run f (beside_env f env) program s p (res, w)).1.1 ≡ w.1
      go (some r) e = rw (e, after_run)
      go none e =
          rw (e, after_run)
            (wait_turn_calls (guarded f (beside_env f env) program s (crashed_of res) p w).0
                (guarded f (beside_env f env) program s (crashed_of res) p w).1
              ∙ guarded_calls (crashed_of res) p w)

  -- A run is made unless the context had ended: then the incarnation is a cancellation.
  pub incarnation_calls :
      (p : Progress f) (w : Recorded W)
      → ((incarnation f (beside_env f env) program s (recording runner) inv p w).1.1
          ≡ w.1 ++ inv ∷ [])
        ⊎ (((incarnation f (beside_env f env) program s (recording runner) inv p w).1.1 ≡ w.1)
            × Aborted program
                (incarnation f (beside_env f env) program s (recording runner) inv p w).0)
  unfolding incarnation recording cancelled
  incarnation_calls p w = elim (Bool-cases (is_some ((beside_env f env).surroundings.ctx_err w))) [
    | inl e ↦
        rw (e, incarnation) (inr (refl, aborted ((beside_env f env).surroundings.ctx_err w) refl))
    | inr e ↦ rw (e, incarnation) (inl (after_run_calls p _ _))
  ]
