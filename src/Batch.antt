-- ===== src/Batch.antt =====
-- batch.go: waits on several processes, and the batch of runs with a bounded number in flight.
-- The goroutines of `OutputAll` are workers, each of which takes a place in the semaphore, runs its
-- command and gives the place back; their interleavings are sequences of steps.
pub mod Progress
pub mod Answers
pub mod Waits
use processkit_go.Prelude.{
  ℤ, pos, pos_part, ltb_ℤ, ℕ, zero, suc, ◌+◌, ◌<◌, ◌==◌, Bool, true, false, Option, none, some,
  List, [], ◌∷◌, map, codes, if◌then◌else◌, length, get_elem?,
}
use processkit_go.Outcome.{Outcome}
use processkit_go.Errors.{ContextError, context_sentinel, sentinel, other, Error, Fallible, ok, err}
use processkit_go.Result.{Result}
use processkit_go.Running.{RunningProcess}

abbrev pub ctx_error : ContextError → Error
ctx_error c = sentinel (context_sentinel c)

-- The exit of the process at an index, if it has exited.
unfoldable pub exit_at : ℕ → Option RunningProcess → Option (Fallible (ℕ × Outcome))
exit_at i none = none
exit_at i (some p) = elim p.finished [
  | none ↦ none
  | some (ok o) ↦ some (ok (i, o))
  | some (err e) ↦ some (err e)
]

-- `WaitAny`, with the case that `reflect.Select` chose; `none` where that case was not ready.
unfoldable pub wait_any :
    Option ContextError → ℕ → List RunningProcess → Option (Fallible (ℕ × Outcome))
unfolding exit_at
wait_any ctx chosen [] = some (err (other (codes "processkit: WaitAny needs at least one process")))
wait_any ctx chosen (p ∷ ps) =
    if chosen == length (p ∷ ps)
    then elim ctx [ none ↦ none | some c ↦ some (err (ctx_error c)) ]
    else exit_at chosen (get_elem? (p ∷ ps) chosen)

-- The outcome of a process before those of the later ones.
unfoldable pub outcome_first :
    Outcome → Option (Fallible (List Outcome)) → Option (Fallible (List Outcome))
outcome_first o none = none
outcome_first o (some (err e)) = some (err e)
outcome_first o (some (ok os)) = some (ok (o ∷ os))

-- What the `select` for a process receives: its exit, or the end of the context.
pub data Received : Type 0 where
  exit : Received
  ctx_end : ContextError → Received

-- `WaitAll`, with what each `select` received; `none` where a case was not ready.
unfoldable pub wait_all : List Received → List RunningProcess → Option (Fallible (List Outcome))
unfolding outcome_first
wait_all choices [] = some (ok [])
wait_all [] (p ∷ ps) = none
wait_all (ctx_end c ∷ choices) (p ∷ ps) = some (err (ctx_error c))
wait_all (exit ∷ choices) (p ∷ ps) =
    let later = wait_all choices ps in
    elim p.finished [
      | none ↦ none
      | some (err e) ↦ some (err e)
      | some (ok o) ↦ outcome_first o later
    ]

-- The places of the semaphore.
unfoldable pub slots : ℤ → ℕ
slots concurrency = if ltb_ℤ concurrency (pos 1) then 1 else pos_part concurrency

-- A goroutine of the batch, with its command. A `BatchOutput` is a result or an error.
pub data Worker (C : Type 0) : Type 0 where
  waiting running : C → Worker C
  finished : C → Fallible Result → Worker C

abbrev pub result_first :
    Fallible Result → Option (List (Fallible Result)) → Option (List (Fallible Result))
result_first r none = none
result_first r (some rs) = some (r ∷ rs)

module _ {C : Type 0} where
  unfoldable pub in_flight : List (Worker C) → ℕ
  in_flight [] = 0
  in_flight (waiting c ∷ ws) = in_flight ws
  in_flight (running c ∷ ws) = suc (in_flight ws)
  in_flight (finished c r ∷ ws) = in_flight ws

  -- `out`, once every worker is done.
  unfoldable pub outputs : List (Worker C) → Option (List (Fallible Result))
  outputs [] = some []
  outputs (waiting c ∷ ws) = none
  outputs (running c ∷ ws) = none
  outputs (finished c r ∷ ws) = result_first r (outputs ws)

  unfoldable pub launched : List C → List (Worker C)
  launched cmds = map (λ c. waiting c) cmds

  -- `sem <- struct{}{}`, once it goes through.
  pub data Acquire : List (Worker C) → List (Worker C) → Type 0 where
    acquire_here : (c : C) (ws : List (Worker C)) → Acquire (waiting c ∷ ws) (running c ∷ ws)
    acquire_later :
        (x : Worker C) (ws ws' : List (Worker C)) → Acquire ws ws' → Acquire (x ∷ ws) (x ∷ ws')

module _ {C W : Type 0} (output : C → W → Fallible Result × W) where
  -- `c.Output`, the write of its result and the release of the place.
  pub data Finish : List (Worker C) → W → List (Worker C) → W → Type 0 where
    finish_here :
        (c : C) (ws : List (Worker C)) (w : W)
        → Finish (running c ∷ ws) w (finished c (output c w).0 ∷ ws) (output c w).1
    finish_later :
        (x : Worker C) (ws ws' : List (Worker C)) (w w' : W)
        → Finish ws w ws' w'
        → Finish (x ∷ ws) w (x ∷ ws') w'

  -- A step of a batch whose semaphore has `limit` places.
  pub data Step (limit : ℕ) : List (Worker C) → W → List (Worker C) → W → Type 0 where
    acquires :
        (ws ws' : List (Worker C)) (w : W)
        → in_flight ws < limit
        → Acquire ws ws'
        → Step limit ws w ws' w
    finishes : (ws ws' : List (Worker C)) (w w' : W) → Finish ws w ws' w' → Step limit ws w ws' w'

  -- So many steps of `OutputAll` on these commands, from a world on.
  pub data OutputAll (concurrency : ℤ) (cmds : List C) (w : W)
      : ℕ → List (Worker C) → W → Type 0 where
    begins : OutputAll concurrency cmds w 0 (launched cmds) w
    steps :
        (n : ℕ) (ws ws' : List (Worker C)) (v v' : W)
        → OutputAll concurrency cmds w n ws v
        → Step (slots concurrency) ws v ws' v'
        → OutputAll concurrency cmds w (suc n) ws' v'
