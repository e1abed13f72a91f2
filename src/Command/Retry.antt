-- ===== src/Command/Retry.antt =====
-- `retryRun` of command.go: the loop behind the verbs Run, ExitCode and Probe.
-- The loop counts `tries` up from 1; its fuel is the attempts left, `max_attempts` at the start,
-- and is never used up, since an attempt with none left returns.
pub mod Bounds
pub mod Journal
use processkit_go.Prelude.{
  ℤ, pos, ltb_ℤ, pos_part, ℕ, zero, suc, ◌+◌, ◌-◌, ◌≤◌, leb, Bool, true, false, not, ◌||◌, Option,
  none, some, if◌then◌else◌, Bytes,
}
use processkit_go.Errors.{Error, cancel_error, Fallible, ok, err, ◌>>=◌, errors_is, err_cancelled}
use processkit_go.Result.{Result, result_run, result_exit_code, result_probe}
use processkit_go.Log.{LogEvent, retrying}
use processkit_go.World.{Runner, Surroundings, sleep_ctx}
use processkit_go.Command.{Cmd, RetryPolicy, invocation}

-- What an attempt leads to: the verb returns, or another attempt is made.
pub data Turn (T : Type 0) : Type 0 where
  stop : Fallible T → Turn T
  again : Turn T

abbrev pub max_attempts_of : Option RetryPolicy → ℕ
max_attempts_of none = 1
max_attempts_of (some p) = if ltb_ℤ (pos 1) p.max_attempts then pos_part p.max_attempts else 1

-- `policy == nil || tries >= maxAttempts || policy.retryIf == nil || !policy.retryIf(err)`.
abbrev pub classified : Option (Error → Bool) → Error → Bool
classified none e = false
classified (some retry_if) e = retry_if e

abbrev pub gives_up : Option RetryPolicy → ℕ → Error → Bool
gives_up none tries e = true
gives_up (some p) tries e = leb (max_attempts_of (some p)) tries || not (classified p.retry_if e)

abbrev pub backoff_of : Option RetryPolicy → ℤ
backoff_of none = pos 0
backoff_of (some p) = p.backoff

module _ {W T : Type 0} (s : Surroundings W) (runner : Runner W) (c : Cmd)
    (extract : Result → Fallible T) where
  -- The event of the next attempt.
  abbrev pub announced : ℕ → Error → LogEvent
  announced tries e =
      retrying c.program (suc tries) (max_attempts_of c.retry) (backoff_of c.retry) e

  -- The event, `sleepCtx(ctx, policy.backoff)`, and the cancellation that an aborted sleep returns.
  unfoldable pub pause : ℕ → Error → W → Turn T × W
  pause tries e w =
      let (slept, w') = sleep_ctx s (backoff_of c.retry) (s.log_event (announced tries e) w) in
      (if slept then again else stop (err (cancel_error c.program (s.ctx_err w'))), w')

  judge : ℕ → Fallible T → W → Turn T × W
  unfolding pause
  judge tries (ok val) w = (stop (ok val), w)
  judge tries (err e) w =
      if errors_is e err_cancelled
      then (stop (err e), w)
      else if gives_up c.retry tries e
      then (stop (err e), w)
      else pause tries e w

  -- `c.run(ctx)`, and the verb's success check.
  unfoldable pub attempt : W → Fallible T × W
  attempt w = let (res, w') = runner (invocation c) w in (res >>= extract, w')

  pub round : ℕ → W → Turn T × W
  unfolding judge attempt
  round tries w = let (r, w') = attempt w in judge tries r w'

  loop : ℕ → ℕ → W → Option (Fallible T × W)
  unfolding round
  loop zero tries w = none
  loop (suc fuel) tries w =
      let (turn, w') = round tries w in
      elim turn [ stop r ↦ some (r, w') | again ↦ loop fuel (suc tries) w' ]

  unfoldable pub retry_run : W → Option (Fallible T × W)
  unfolding loop
  retry_run w = loop (max_attempts_of c.retry) 1 w
