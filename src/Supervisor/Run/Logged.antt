-- ===== src/Supervisor/Run/Logged.antt =====
-- What one incarnation of `Supervisor.Run` of supervisor.go logs, in a world whose logger can be read.
use processkit_go.Prelude.{
  ℤ, pos, ltb_ℤ, ℕ, suc, ◌&&◌, Bool, Option, none, some, is_some, Bytes, List, [], ◌∷◌, ◌++◌,
  append_assoc, append-nil, ◌+◌, ◌≡◌, ◌⊎◌, refl, sym, subst, ◌∙◌, ap, inl, inr, arith, Bool-cases,
}
use processkit_go.Errors.{ContextError, cancel_error, Fallible, err}
use processkit_go.Runner.{Action, logged}
use processkit_go.Log.{LogEvent, supervisor_restart, supervisor_storm}
use processkit_go.Result.{Invocation, Result}
use processkit_go.World.{Runner, sleep_ctx}
use processkit_go.Floats.{Floats}
use processkit_go.Supervisor.{SupervisionOutcome, Supervisor, record_failure, apply_jitter}
use processkit_go.Supervisor.Run.{
  Turn, conclude, continue, Env, Progress, crashed_of, verdict, cancelled, rest_for, storm_guard,
  guarded, back_off, wait_turn, after_run, incarnation,
}
use processkit_go.Supervisor.Run.Effect.{Aborted, aborted, rest_for_cases}

-- A log that the runs and the events are added to, and that nothing else changes.
pub record Kept (f : Floats) {W : Type 0} (env : Env f W) (runner : Runner W) : Type 0 where
  pub log : W → List Action
  pub timer_keeps : (d : ℤ) (w : W) → log (env.surroundings.timer d w).1 ≡ log w
  pub now_keeps : (w : W) → log (env.now w).1 ≡ log w
  pub rng_keeps : (w : W) → log (env.rng w).1 ≡ log w
  pub ran : Invocation → W → List Action
  pub run_adds : (inv : Invocation) (w : W) → log (runner inv w).1 ≡ log w ++ ran inv w
  pub event_adds :
      (e : LogEvent) (w : W) → log (env.surroundings.log_event e w) ≡ log w ++ logged e ∷ []

-- The event of a storm pause, if there was one, and how many that is.
abbrev pub stormy : Bytes → Option ℤ → List Action
stormy program none = []
stormy program (some pause) = logged (supervisor_storm program pause) ∷ []

-- The event of a restart.
abbrev pub restart : Bytes → ℕ → ℤ → Action
restart program number delay = logged (supervisor_restart program number delay)

abbrev pub count_of : Option ℤ → ℕ
count_of none = 0
count_of (some pause) = 1

module _ (f : Floats) (s : Supervisor f) {W : Type 0} (env : Env f W) (program : Bytes)
    (runner : Runner W) (kept : Kept f env runner) where
  open kept use {log, ran}

  -- What the storm guard has logged, before the delay.
  data Guarded (p : Progress f) (before after : List Action) : Turn (Progress f) → Type 0 where
    passed :
        (p' : Progress f) (storm : Option ℤ)
        → p'.restarts ≡ p.restarts
        → p'.storm_pauses ≡ p.storm_pauses + count_of storm
        → after ≡ before ++ stormy program storm
        → Guarded p before after (continue p')
    stopped :
        (c : Option ContextError) (pause : ℤ)
        → after ≡ before ++ stormy program (some pause)
        → Guarded p before after (conclude (err (cancel_error program c)))

  sleep_keeps : (d : ℤ) (w : W) → log (sleep_ctx env.surroundings d w).1 ≡ log w
  unfolding sleep_ctx
  sleep_keeps d w = ground (arith, kept.timer_keeps d w)

  jitter_keeps : (d : ℤ) (jitter : Bool) (w : W) → log (apply_jitter f env.rng d jitter w).1 ≡ log w
  unfolding apply_jitter
  jitter_keeps d jitter w = ground (arith, kept.rng_keeps w)

  rest_for_log : (d : ℤ) (p : Progress f) (w : W) → log (rest_for f env program d p w).1 ≡ log w
  unfolding rest_for
  rest_for_log d p w = sleep_keeps d w

  -- An event, then a sleep.
  told :
      (e : LogEvent) (d : ℤ) (q : Progress f) (v : W) (before : List Action)
      → log v ≡ before
      → log (rest_for f env program d q (env.surroundings.log_event e v)).1
        ≡ before ++ logged e ∷ []
  told e d q v before same =
      rest_for_log d q _ ∙ (kept.event_adds e v ∙ ap (λ l. l ++ logged e ∷ []) same)

  paused-Guarded :
      (p q : Progress f) (pause : ℤ) (before after : List Action) (turn : Turn (Progress f))
      → q.restarts ≡ p.restarts
      → q.storm_pauses ≡ suc p.storm_pauses
      → after ≡ before ++ stormy program (some pause)
      → (turn ≡ continue q) ⊎ Aborted program turn
      → Guarded p before after turn
  paused-Guarded p q pause before after turn r m l (inl e) =
      rw e (passed q (some pause) r (omega (arith, m)) l)
  paused-Guarded p q pause before after turn r m l (inr (aborted c e)) = rw e (stopped c pause l)

  storm_guard-Guarded :
      (p : Progress f) (w : W)
      → Guarded p
          (log w)
          (log (storm_guard f env program s p w).1)
          (storm_guard f env program s p w).0
  unfolding storm_guard
  storm_guard-Guarded p w =
      elim (Bool-cases (
        f.above (record_failure f p.storm (env.now w).0 s.failure_decay).score
          s.failure_threshold)) [
            | inl e ↦
                rw (e, storm_guard)
                  (paused-Guarded p _ _ (log w) _ _ refl refl
                    (told _ _ _ _ (log w)
                      (jitter_keeps s.storm_pause s.jitter (env.now w).1 ∙ kept.now_keeps w))
                    (rest_for_cases f s env program _ _ _))
            | inr e ↦
                rw (e, storm_guard)
                  (passed _ none refl (omega arith) (kept.now_keeps w ∙ sym (append-nil (log w))))
          ]

  guarded-Guarded :
      (crashed : Bool) (p : Progress f) (w : W)
      → Guarded p
          (log w)
          (log (guarded f env program s crashed p w).1)
          (guarded f env program s crashed p w).0
  unfolding guarded
  guarded-Guarded crashed p w = elim (Bool-cases (crashed && ltb_ℤ (pos 0) s.storm_pause)) [
    | inl e ↦ rw (e, guarded) (storm_guard-Guarded p w)
    | inr e ↦ rw (e, guarded) (passed p none refl (omega arith) (sym (append-nil (log w))))
  ]

  -- What follows a run that returned `res`.
  pub data Told (p : Progress f) (res : Fallible Result) (before after : List Action)
      : Turn (Progress f) → Type 0 where
    concluded :
        (r : Fallible SupervisionOutcome)
        → verdict f s p res ≡ some r
        → after ≡ before
        → Told p res before after (conclude r)
    restarts :
        (p' : Progress f) (storm : Option ℤ) (delay : ℤ)
        → verdict f s p res ≡ none
        → p'.restarts ≡ suc p.restarts
        → p'.storm_pauses ≡ p.storm_pauses + count_of storm
        → after ≡ before ++ (stormy program storm ++ restart program (suc p.restarts) delay ∷ [])
        → Told p res before after (continue p')
    -- The context ended during the pause, or during the delay.
    cut_pause :
        (c : Option ContextError) (pause : ℤ)
        → verdict f s p res ≡ none
        → after ≡ before ++ stormy program (some pause)
        → Told p res before after (conclude (err (cancel_error program c)))
    cut_delay :
        (c : Option ContextError) (storm : Option ℤ) (delay : ℤ)
        → verdict f s p res ≡ none
        → after ≡ before ++ (stormy program storm ++ restart program (suc p.restarts) delay ∷ [])
        → Told p res before after (conclude (err (cancel_error program c)))

  delayed-Told :
      (p q' : Progress f) (res : Fallible Result) (storm : Option ℤ) (delay : ℤ)
      (before after : List Action) (turn : Turn (Progress f))
      → verdict f s p res ≡ none
      → q'.restarts ≡ suc p.restarts
      → q'.storm_pauses ≡ p.storm_pauses + count_of storm
      → after ≡ before ++ (stormy program storm ++ restart program (suc p.restarts) delay ∷ [])
      → (turn ≡ continue q') ⊎ Aborted program turn
      → Told p res before after turn
  delayed-Told p q' res storm delay before after turn v r m l (inl e) =
      rw e (restarts q' storm delay v r m l)
  delayed-Told p q' res storm delay before after turn v r m l (inr (aborted c e)) =
      rw e (cut_delay c storm delay v l)

  renumbered :
      (before : List Action) (storm : Option ℤ) (delay : ℤ) (n m : ℕ)
      → n ≡ m
      → before ++ (stormy program storm ++ restart program (suc n) delay ∷ [])
        ≡ before ++ (stormy program storm ++ restart program (suc m) delay ∷ [])
  renumbered before storm delay n m e =
      ap (λ k. before ++ (stormy program storm ++ restart program (suc k) delay ∷ [])) e

  wait_turn-Told :
      (p : Progress f) (res : Fallible Result) (before : List Action) (turn : Turn (Progress f))
      (w : W)
      → verdict f s p res ≡ none
      → Guarded p before (log w) turn
      → Told p res before
          (log (wait_turn f env program s (turn, w)).1)
          (wait_turn f env program s (turn, w)).0
  unfolding wait_turn back_off
  wait_turn-Told p res before (conclude _) w v (stopped c pause l) = cut_pause c pause v l
  wait_turn-Told p res before (continue q) w v (passed _ storm r m l) =
      delayed-Told p _ res storm _ before _ _ v (ap suc r) m
        (told _ _ _ _ (before ++ stormy program storm) (jitter_keeps _ s.jitter w ∙ l)
          ∙ (append_assoc before (stormy program storm) _ ∙ renumbered before storm _ _ _ r))
        (rest_for_cases f s env program _ _ _)

  after_run-Told :
      (p : Progress f) (res : Fallible Result) (w : W)
      → Told p res
          (log w)
          (log (after_run f env program s p (res, w)).1)
          (after_run f env program s p (res, w)).0
  unfolding after_run
  after_run-Told p res w = go (verdict f s p res) refl
    where
      go :
          (v : Option (Fallible SupervisionOutcome))
          → verdict f s p res ≡ v
          → Told p res
              (log w)
              (log (after_run f env program s p (res, w)).1)
              (after_run f env program s p (res, w)).0
      go (some r) e = rw (e, after_run) (concluded r e refl)
      go none e =
          rw (e, after_run)
            (wait_turn-Told p res (log w) (guarded f env program s (crashed_of res) p w).0
              (guarded f env program s (crashed_of res) p w).1 e
              (guarded-Guarded (crashed_of res) p w))

  retold :
      (p : Progress f) (res : Fallible Result) (before before' after : List Action)
      (turn : Turn (Progress f))
      → before ≡ before'
      → Told p res before after turn
      → Told p res before' after turn
  retold p res before before' after turn e h = subst (λ b. Told p res b after turn) e h

  -- An incarnation does nothing where the context had ended, or runs the command.
  pub incarnation-Told :
      (inv : Invocation) (p : Progress f) (w : W)
      → ((log (incarnation f env program s runner inv p w).1 ≡ log w)
          × Aborted program (incarnation f env program s runner inv p w).0)
        ⊎ Told p
            (runner inv w).0
            (log w ++ ran inv w)
            (log (incarnation f env program s runner inv p w).1)
            (incarnation f env program s runner inv p w).0
  unfolding incarnation cancelled
  incarnation-Told inv p w = elim (Bool-cases (is_some (env.surroundings.ctx_err w))) [
    | inl e ↦ rw (e, incarnation) (inl (refl, aborted (env.surroundings.ctx_err w) refl))
    | inr e ↦
        rw (e, incarnation)
          (inr (
            retold p _ _ (log w ++ ran inv w) _ _ (kept.run_adds inv w)
              (after_run-Told p (runner inv w).0 (runner inv w).1)))
  ]
