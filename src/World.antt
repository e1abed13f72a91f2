-- ===== src/World.antt =====
-- What the program reads of its surroundings while a verb runs: the caller's context and timers
-- (clock.go), and the `ProcessRunner` seam of runner.go. A world `W` is the state of all that; each
-- reading may change it. A logger is part of the world, and takes the events that are logged.
use processkit_go.Prelude.{ℤ, pos, leb_ℤ, Bool, Option, is_none, if◌then◌else◌}
use processkit_go.Errors.{ContextError, Fallible}
use processkit_go.Log.{LogEvent}
use processkit_go.Result.{Invocation, Result}

-- `ProcessRunner`: `Output` takes the invocation and may change the world.
abbrev pub Runner : Type 0 → Type 0
Runner W = Invocation → W → Fallible Result × W

pub record Surroundings (W : Type 0) : Type 0 where
  -- `ctx.Err()`.
  pub ctx_err : W → Option ContextError
  -- A `select` between a timer of this duration and `ctx.Done()`: whether the timer fired.
  pub timer : ℤ → W → Bool × W
  pub log_event : LogEvent → W → W

module _ {W : Type 0} (s : Surroundings W) where
  open s use {ctx_err, timer}

  -- `sleepCtx`.
  unfoldable pub sleep_ctx : ℤ → W → Bool × W
  sleep_ctx d w = if leb_ℤ d (pos 0) then (is_none (ctx_err w), w) else timer d w
