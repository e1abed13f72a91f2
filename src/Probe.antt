-- ===== src/Probe.antt =====
-- probe.go: the readiness probes of a running process. A call of the probe's check, of `p.exited`, of
-- `time.Now` and of the `select` that sleeps each read and change a world. The loop of `pollUntil` has
-- fuel, a turn for each unit.
pub mod Lines
pub mod Verdicts
pub mod Deadline
use processkit_go.Prelude.{
  ℤ, pos, ltb_ℤ, leb_ℤ, ◌+ℤ◌, ◌-ℤ◌, ◌⊎◌, inl, inr, ℕ, zero, suc, Bool, true, false, Option, none,
  some, Bytes, codes, if◌then◌else◌,
}
use processkit_go.Errors.{
  Error, ContextError, context_sentinel, sentinel, not_ready_error, Cause, nil, cause,
}
use processkit_go.World.{Surroundings}

-- 50 milliseconds and a second.
abbrev pub readiness_poll : ℤ
readiness_poll = pos 50000000

abbrev pub connect_attempt_cap : ℤ
connect_attempt_cap = pos 1000000000

unfoldable pub non_negative : ℤ → ℤ
non_negative d = if ltb_ℤ d (pos 0) then pos 0 else d

pub data Turn (W : Type 0) : Type 0 where
  conclude : Option Error → W → Turn W
  again : W → Turn W

pub record Env (W : Type 0) : Type 0 where
  pub surroundings : Surroundings W
  pub now : W → ℤ × W
  -- The non-blocking read of `p.done`.
  pub exited : W → Bool × W

-- What a check answers: whether it is ready, and its error.
abbrev pub Check : Type 0 → Type 0
Check W = W → (Bool × Option Error) × W

abbrev pub cause_of : Option Error → Cause
cause_of none = nil
cause_of (some e) = cause e

-- The next sleep, of at most the cadence.
unfoldable pub nap : ℤ → ℤ
nap remaining = if ltb_ℤ remaining readiness_poll then remaining else readiness_poll

-- What `WaitForPort` makes of a dial: the connection is closed at once.
unfoldable pub dialled : {W C : Type 0} → (C → W → W) → (C ⊎ Error) × W → (Bool × Option Error) × W
dialled close (inl conn, w) = ((true, none), close conn w)
dialled close (inr e, w) = ((false, some e), w)

module _ {W : Type 0} (env : Env W) (program probe : Bytes) (within : ℤ) (check : Check W) where
  abbrev pub not_ready : Option Error → Error
  not_ready last = not_ready_error program probe within (cause_of last)

  abbrev pub ctx_error : Option ContextError → Option Error
  ctx_error none = none
  ctx_error (some c) = some (sentinel (context_sentinel c))

  -- After the `select`: whether the timer fired.
  unfoldable pub on_slept : Bool × W → Turn W
  on_slept (true, w) = again w
  on_slept (false, w) = conclude (ctx_error (env.surroundings.ctx_err w)) w

  -- After `time.Until`.
  unfoldable pub on_time : ℤ → Option Error → ℤ × W → Turn W
  unfolding on_slept nap
  on_time deadline last (t, w) =
      if leb_ℤ (deadline -ℤ t) (pos 0)
      then conclude (some (not_ready last)) w
      else on_slept (env.surroundings.timer (nap (deadline -ℤ t)) w)

  unfoldable pub on_alive : ℤ → Option Error → Bool × W → Turn W
  unfolding on_time
  on_alive deadline last (true, w) = conclude (some (not_ready last)) w
  on_alive deadline last (false, w) = on_time deadline last (env.now w)

  unfoldable pub on_checked : ℤ → (Bool × Option Error) × W → Turn W
  unfolding on_alive
  on_checked deadline ((true, e), w) = conclude none w
  on_checked deadline ((false, e), w) = on_alive deadline e (env.exited w)

  -- One turn of the loop.
  unfoldable pub turn : ℤ → W → Turn W
  unfolding on_checked
  turn deadline w = on_checked deadline (check w)

  unfoldable pub on_turn : (W → Option (Option Error × W)) → Turn W → Option (Option Error × W)
  on_turn next (conclude r w) = some (r, w)
  on_turn next (again w) = next w

  unfoldable pub loop : ℕ → ℤ → W → Option (Option Error × W)
  unfolding turn on_turn
  loop zero deadline w = none
  loop (suc fuel) deadline w = on_turn (loop fuel deadline) (turn deadline w)

  -- `pollUntil`.
  unfoldable pub poll_until : ℕ → W → Option (Option Error × W)
  unfolding loop non_negative
  poll_until fuel w = let (start, w') = env.now w in loop fuel (start +ℤ non_negative within) w'

module _ {W : Type 0} (env : Env W) (program : Bytes) (within : ℤ) where
  -- `WaitFor`, of a test of the world.
  unfoldable pub wait_for : (W → Bool × W) → ℕ → W → Option (Option Error × W)
  wait_for test =
      poll_until env program (codes "predicate") within
        (λ w. let (b, w') = test w in ((b, none), w'))

  -- `WaitForPort`, with `net.Dialer.DialContext` and `conn.Close` as parameters.
  unfoldable pub wait_for_port :
      {C : Type 0}
      → (ℤ → Bytes → W → (C ⊎ Error) × W)
      → (C → W → W)
      → Bytes
      → ℕ
      → W
      → Option (Option Error × W)
  wait_for_port dial close addr =
      poll_until env program (codes "port") within
        (λ w. dialled close (dial connect_attempt_cap addr w))
