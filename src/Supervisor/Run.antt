-- ===== src/Supervisor/Run.antt =====
-- `Supervisor.Run` of supervisor.go, over a world that answers for the context, the timers, the
-- clock, the random source and the runner. The loop has fuel, a run of the command for each unit.
pub mod Effect
pub mod Laws
pub mod Recorded
pub mod Calls
pub mod Logged
pub mod Supervised
use processkit_go.Prelude.{
  ℤ, pos, ltb_ℤ, leb_ℤ, ℕ, zero, suc, ◌+◌, Bool, true, false, not, ◌&&◌, Option, none, some, Bytes,
  is_some, if◌then◌else◌,
}
use processkit_go.Errors.{Error, cancel_error, Fallible, ok, err, errors_is, err_cancelled}
use processkit_go.Result.{Invocation, Result, success}
use processkit_go.Log.{supervisor_restart, supervisor_storm}
use processkit_go.World.{Runner, Surroundings, sleep_ctx}
use processkit_go.Floats.{Floats}
use processkit_go.Supervisor.{
  RestartPolicy, wants_restart, StopReason, stopped_by_predicate, stopped_policy_satisfied,
  stopped_restarts_exhausted, SupervisionOutcome, Supervisor, backoff_delay, apply_jitter,
  StormState, record_failure, reset, calm,
}

pub data Turn (S : Type 0) : Type 0 where
  conclude : Fallible SupervisionOutcome → Turn S
  continue : S → Turn S

abbrev pub matches : Option (Result → Bool) → Result → Bool
matches none r = false
matches (some predicate) r = predicate r

abbrev pub crashed_of : Fallible Result → Bool
crashed_of (err e) = true
crashed_of (ok r) = not (success r)

module _ (f : Floats) where
  pub record Env (W : Type 0) : Type 0 where
    pub surroundings : Surroundings W
    pub now : W → ℤ × W
    pub rng : W → f.Float × W

  -- The local variables of `Run`.
  pub record Progress : Type 0 where
    pub restarts : ℕ
    pub storm_pauses : ℕ
    pub storm : StormState f

  unfoldable pub begin : Progress
  begin = record { restarts = 0; storm_pauses = 0; storm = calm f }

  abbrev pub report : Progress → Fallible Result → StopReason → Fallible SupervisionOutcome
  report p (err e) why = err e
  report p (ok r) why =
      ok (record { final = r; restarts = p.restarts; stopped = why; storm_pauses = p.storm_pauses })

  -- `s.maxRestarts >= 0 && restarts >= s.maxRestarts`.
  abbrev pub exhausted : Supervisor f → Progress → Bool
  exhausted s p = leb_ℤ (pos 0) s.max_restarts && leb_ℤ s.max_restarts (pos p.restarts)

  -- The restart policy, then the budget; `none` means another run.
  unfoldable pub judge :
      Supervisor f → Progress → Bool → Fallible Result → Option (Fallible SupervisionOutcome)
  judge s p crashed res =
      if not (wants_restart s.policy crashed)
      then some (report p res stopped_policy_satisfied)
      else if exhausted s p
      then some (report p res stopped_restarts_exhausted)
      else none

  -- What a finished incarnation leads to.
  unfoldable pub verdict :
      Supervisor f → Progress → Fallible Result → Option (Fallible SupervisionOutcome)
  unfolding judge
  verdict s p (err e) = if errors_is e err_cancelled then some (err e) else judge s p true (err e)
  verdict s p (ok r) =
      if matches s.stop_when r
      then some (report p (ok r) stopped_by_predicate)
      else judge s p (not (success r)) (ok r)

  module _ {W : Type 0} (env : Env W) (program : Bytes) where
    pub cancelled : W → Turn Progress
    cancelled w = conclude (err (cancel_error program (env.surroundings.ctx_err w)))

    -- A sleep and what follows it, or the cancellation that cut it short.
    pub rest_for : ℤ → Progress → W → Turn Progress × W
    unfolding cancelled
    rest_for d p w =
        let (slept, w') = sleep_ctx env.surroundings d w in
        (if slept then continue p else cancelled w', w')

    -- The pause of the storm guard, if the score that the failure gives is above the threshold.
    pub storm_guard : Supervisor f → Progress → W → Turn Progress × W
    storm_guard s p w =
        let (t, w₁) = env.now w in
        let storm = record_failure f p.storm t s.failure_decay in
        let (pause, w₂) = apply_jitter f env.rng s.storm_pause s.jitter w₁ in
        if f.above storm.score s.failure_threshold
        then rest_for pause (record p { storm_pauses = suc p.storm_pauses; storm = reset f storm })
            (env.surroundings.log_event (supervisor_storm program pause) w₂)
        else (continue (record p { storm = storm }), w₁)

    pub guarded : Supervisor f → Bool → Progress → W → Turn Progress × W
    guarded s crashed p w =
        if crashed && ltb_ℤ (pos 0) s.storm_pause then storm_guard s p w else (continue p, w)

    -- The delay before the next run, and `restarts++`.
    pub back_off : Supervisor f → Progress → W → Turn Progress × W
    back_off s p w =
        let (delay, w') =
          apply_jitter f env.rng (backoff_delay f p.restarts s.backoff_base s.factor s.max_backoff)
            s.jitter w in
        rest_for delay (record p { restarts = suc p.restarts })
          (env.surroundings.log_event (supervisor_restart program (suc p.restarts) delay) w')

    pub wait_turn : Supervisor f → Turn Progress × W → Turn Progress × W
    wait_turn s (conclude r, w) = (conclude r, w)
    wait_turn s (continue p, w) = back_off s p w

    pub after_run : Supervisor f → Progress → Fallible Result × W → Turn Progress × W
    after_run s p (res, w) = elim (verdict s p res) [
      | some outcome ↦ (conclude outcome, w)
      | none ↦ wait_turn s (guarded s (crashed_of res) p w)
    ]

    -- One incarnation.
    pub incarnation : Supervisor f → Runner W → Invocation → Progress → W → Turn Progress × W
    incarnation s runner inv p w =
        if is_some (env.surroundings.ctx_err w)
        then (cancelled w, w)
        else after_run s p (runner inv w)

    pub loop :
        Supervisor f
        → Runner W
        → Invocation
        → ℕ
        → Progress
        → W
        → Option (Fallible SupervisionOutcome × W)
    loop s runner inv zero p w = none
    loop s runner inv (suc fuel) p w =
        let (turn, w') = incarnation s runner inv p w in
        elim turn [ conclude r ↦ some (r, w') | continue p' ↦ loop s runner inv fuel p' w' ]

    -- `Supervisor.Run`, for at most `fuel` incarnations.
    unfoldable pub run :
        Supervisor f → Runner W → Invocation → ℕ → W → Option (Fallible SupervisionOutcome × W)
    unfolding loop begin incarnation after_run verdict guarded storm_guard wait_turn back_off
        rest_for cancelled
    run s runner inv fuel w = loop s runner inv fuel begin w
