-- ===== src/Command/Retry/Journal.antt =====
-- All that a verb of command.go does through the built-in runner, from the first attempt to its answer.
use processkit_go.Prelude.{ℕ, suc, true, false, Option, none, some, List, [], ◌∷◌, ◌++◌, ◌≡◌, ◌⊎◌}
use processkit_go.Outcome.{Platform}
use processkit_go.Errors.{
  Fallible, ok, err, ◌>>=◌, errors_is, err_cancelled, Error, ContextError, cancel_error,
}
use processkit_go.Log.{retrying}
use processkit_go.Result.{Result}
use processkit_go.World.{Runner, Surroundings}
use processkit_go.Runner.{Action, logged}
use processkit_go.Command.{Cmd, invocation}
use processkit_go.Command.BuiltIn.{Traced, System, Ran, job_runner, tracing, runner_or}
use processkit_go.Command.Retry.{Turn, stop, again, max_attempts_of, backoff_of, gives_up}

module _ {T : Type 0} (platform : Platform) (c : Cmd) (extract : Result → Fallible T) where
  -- One attempt: a run, and what the verb makes of what it returns.
  pub record Attempted (actions : List Action) (answer : Fallible T) : Type 0 where
    pub result : Fallible Result
    pub ran : Ran platform (invocation c) actions result
    pub answered : answer ≡ (result >>= extract)

  -- The failure of attempt number `tries` is one that is retried.
  abbrev pub Retried : ℕ → Error → Type 0
  Retried tries e = (errors_is e err_cancelled ≡ false) × (gives_up c.retry tries e ≡ false)

  -- The answer of attempt number `tries` is the verb's.
  abbrev pub Final : ℕ → Fallible T → Type 0
  Final tries (ok v) = Unit
  Final tries (err e) = (errors_is e err_cancelled ≡ true) ⊎ (gives_up c.retry tries e ≡ true)

  abbrev pub noticed : ℕ → Error → Action
  noticed tries e =
      logged (retrying c.program (suc tries) (max_attempts_of c.retry) (backoff_of c.retry) e)

  -- What is done from attempt number `tries` on, and the verb's answer.
  pub data Journal : ℕ → List Action → Fallible T → Type 0 where
    returned :
        (tries : ℕ) (actions : List Action) (r : Fallible T)
        → Attempted actions r
        → Final tries r
        → Journal tries actions r
    cut_short :
        (tries : ℕ) (actions : List Action) (e : Error) (ended : Option ContextError)
        → Attempted actions (err e)
        → Retried tries e
        → Journal tries (actions ++ noticed tries e ∷ []) (err (cancel_error c.program ended))
    went_on :
        (tries : ℕ) (actions rest : List Action) (e : Error) (r : Fallible T)
        → Attempted actions (err e)
        → Retried tries e
        → Journal (suc tries) rest r
        → Journal tries (actions ++ noticed tries e ∷ rest) r

  module _ {W : Type 0} (s : Surroundings W) (system : System W) where
    -- What follows an attempt with this answer.
    data Judged (tries : ℕ) (before after : List Action) : Fallible T → Turn T → Type 0 where
      settled :
          (r : Fallible T) → Final tries r → after ≡ before → Judged tries before after r (stop r)
      cut :
          (e : Error) (ended : Option ContextError)
          → Retried tries e
          → after ≡ before ++ noticed tries e ∷ []
          → Judged tries before after (err e) (stop (err (cancel_error c.program ended)))
      renewed :
          (e : Error)
          → Retried tries e
          → after ≡ before ++ noticed tries e ∷ []
          → Judged tries before after (err e) again

    abbrev env : Surroundings (Traced W)
    env = tracing s

    abbrev runner : Runner (Traced W)
    runner = runner_or none (job_runner platform system)

    -- One round: an attempt and what follows it.
    abbrev Rounded : ℕ → List Action → List Action → Turn T → Type 0
    Rounded tries before after turn =
        (actions : List Action) × (r : Fallible T) × Attempted actions r
        × Judged tries (before ++ actions) after r turn

    -- What the loop adds to the trace.
    abbrev Answers : ℕ → Traced W → Option (Fallible T × Traced W) → Type 0
    Answers tries w result =
        (r : Fallible T) × (w' : Traced W) × (added : List Action) × (result ≡ some (r, w'))
        × (w'.1 ≡ w.1 ++ added)
        × Journal tries added r
