-- ===== src/Supervisor.antt =====
-- supervisor.go: the restart policy, the supervisor's configuration and its builders, the delays and
-- the storm score. The supervised run itself is in the child `Run`.
pub mod Run
use processkit_go.Prelude.{
  ℤ, pos, negsuc, ltb_ℤ, leb_ℤ, ◌-ℤ◌, ℕ, Bool, true, false, not, ◌||◌, ◌&&◌, Option, none,
  if◌then◌else◌, Bytes, codes,
}
use processkit_go.Result.{Result}
use processkit_go.Floats.{Floats}

pub data RestartPolicy : Type 0 where
  restart_on_crash restart_always restart_never : RestartPolicy

-- `RestartPolicy.String`.
unfoldable pub policy_text : RestartPolicy → Bytes
policy_text restart_always = codes "always"
policy_text restart_never = codes "never"
policy_text restart_on_crash = codes "on-crash"

-- `RestartPolicy.wantsRestart`.
unfoldable pub wants_restart : RestartPolicy → Bool → Bool
wants_restart restart_always crashed = true
wants_restart restart_never crashed = false
wants_restart restart_on_crash crashed = crashed

pub data StopReason : Type 0 where
  stopped_by_predicate stopped_policy_satisfied stopped_restarts_exhausted : StopReason

-- `StopReason.String`.
unfoldable pub reason_text : StopReason → Bytes
reason_text stopped_by_predicate = codes "predicate"
reason_text stopped_restarts_exhausted = codes "restarts-exhausted"
reason_text stopped_policy_satisfied = codes "policy-satisfied"

pub record SupervisionOutcome : Type 0 where
  pub final : Result
  pub restarts : ℕ
  pub stopped : StopReason
  pub storm_pauses : ℕ

-- The largest int64.
abbrev pub max_int64 : ℤ
max_int64 = pos 9223372036854775807

module _ (f : Floats) where
  open f use {
    Float, of_int, to_int, seconds, zero_f, half, one, add, mul, div, pow, at_least, above, is_nan,
    is_inf,
  }

  -- The command, the runner and the random source are parameters of the run.
  pub record Supervisor : Type 0 where
    pub policy : RestartPolicy
    pub max_restarts : ℤ
    pub backoff_base : ℤ
    pub factor : Float
    pub max_backoff : ℤ
    pub jitter : Bool
    pub storm_pause : ℤ
    pub failure_decay : ℤ
    pub failure_threshold : Float
    pub stop_when : Option (Result → Bool)

  unfoldable pub supervise : Float → Float → Supervisor
  supervise two five = record {
    policy = restart_on_crash;
    max_restarts = negsuc 0;
    backoff_base = pos 200000000;
    factor = two;
    max_backoff = pos 30000000000;
    jitter = true;
    storm_pause = pos 0;
    failure_decay = pos 30000000000;
    failure_threshold = five;
    stop_when = none;
  }

  unfoldable pub with_restart : RestartPolicy → Supervisor → Supervisor
  with_restart policy s = record s { policy = policy }

  unfoldable pub with_max_restarts : ℤ → Supervisor → Supervisor
  with_max_restarts n s = record s { max_restarts = if ltb_ℤ n (pos 0) then pos 0 else n }

  unfoldable pub with_backoff : ℤ → Float → Supervisor → Supervisor
  with_backoff base factor s = record s { backoff_base = base; factor = factor }

  unfoldable pub with_max_backoff : ℤ → Supervisor → Supervisor
  with_max_backoff limit s = record s { max_backoff = limit }

  unfoldable pub with_jitter : Bool → Supervisor → Supervisor
  with_jitter enabled s = record s { jitter = enabled }

  unfoldable pub with_storm_pause : ℤ → Supervisor → Supervisor
  with_storm_pause pause s = record s { storm_pause = pause }

  unfoldable pub with_failure_decay : ℤ → Supervisor → Supervisor
  with_failure_decay decay s = record s { failure_decay = decay }

  unfoldable pub with_failure_threshold : Float → Supervisor → Supervisor
  with_failure_threshold threshold s = record s { failure_threshold = threshold }

  unfoldable pub with_stop_when : Option (Result → Bool) → Supervisor → Supervisor
  with_stop_when predicate s = record s { stop_when = predicate }

  -- A factor that is not at least 1 (NaN too) or is infinite is 1.
  abbrev sane_factor : Float → Float
  sane_factor factor = if not (at_least factor one) || is_inf factor then one else factor

  abbrev capped : ℤ → Float → ℤ
  capped limit scaled =
      if is_nan scaled || (is_inf scaled || at_least scaled (of_int limit))
      then limit
      else to_int scaled

  unfoldable pub backoff_delay : ℕ → ℤ → Float → ℤ → ℤ
  backoff_delay n base factor limit =
      if leb_ℤ base (pos 0)
      then pos 0
      else capped (if leb_ℤ limit (pos 0) then base else limit)
          (mul (of_int base) (pow (sane_factor factor) (of_int (pos n))))

  -- The random number is the argument `r`, drawn only when it is used.
  unfoldable pub spread : ℤ → Float → ℤ
  spread d r =
      let scaled = mul (of_int d) (add half r) in
      if not (above scaled zero_f) || is_nan scaled
      then d
      else if at_least scaled (of_int max_int64)
      then max_int64
      else to_int scaled

  -- `applyJitter`, whose random source changes the world.
  unfoldable pub apply_jitter : {W : Type 0} → (W → Float × W) → ℤ → Bool → W → ℤ × W
  apply_jitter rng d enabled w =
      let (r, w') = rng w in if not enabled || leb_ℤ d (pos 0) then (d, w) else (spread d r, w')

  pub record StormState : Type 0 where
    pub score : Float
    pub last : ℤ
    pub has_last : Bool

  abbrev finite_or_zero : Float → Float
  finite_or_zero x = if is_nan x || is_inf x then zero_f else x

  -- The score that is left of the failures before, after the time that has passed.
  unfoldable pub decayed : StormState → ℤ → ℤ → Float
  decayed st now decay =
      if not st.has_last || (leb_ℤ decay (pos 0) || (is_nan st.score || is_inf st.score))
      then zero_f
      else finite_or_zero (mul st.score (pow half (div (seconds (now -ℤ st.last)) (seconds decay))))

  -- `stormState.record`: the new score is that of the new state.
  unfoldable pub record_failure : StormState → ℤ → ℤ → StormState
  record_failure st now decay = record {
    score = add (decayed st now decay) one;
    last = now;
    has_last = true;
  }

  -- `stormState.reset`.
  unfoldable pub reset : StormState → StormState
  reset st = record st { score = zero_f; has_last = false }

  -- The zero value.
  unfoldable pub calm : StormState
  calm = record { score = zero_f; last = pos 0; has_last = false }
