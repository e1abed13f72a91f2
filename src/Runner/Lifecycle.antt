-- ===== src/Runner/Lifecycle.antt =====
-- The events that a run of runner.go logs, beside what it returns.
use processkit_go.Prelude.{
  ℤ, Bool, true, false, Option, some, List, [], ◌∷◌, ◌++◌, ◌≡◌, ◌∙◌, inl, inr, Bool-cases,
  Option-cases, any,
}
use processkit_go.Outcome.{Mechanism, Platform, has_timed_out}
use processkit_go.Errors.{ContextError, Error, cancel_error, start_error, Fallible, ok, err}
use processkit_go.Log.{LogEvent, child_spawned, process_exited, cancellation_fired, timeout_elapsed}
use processkit_go.Result.{Invocation, Result}
use processkit_go.Runner.{
  Action, make_job, start, assign, assign_failed, wait, kill_job, close_job, logged, Script,
  cancelled_by, deadline_fired, captured, lost_state, conclude, supervise_child, output,
}
use processkit_go.Runner.Laws.{resolve_outcome-timed_out}

abbrev pub events_of : List Action → List LogEvent
events_of [] = []
events_of (logged e ∷ rest) = e ∷ events_of rest
events_of (make_job ∷ rest) = events_of rest
events_of (start ∷ rest) = events_of rest
events_of (assign_failed ∷ rest) = events_of rest
events_of (assign ∷ rest) = events_of rest
events_of (wait ∷ rest) = events_of rest
events_of (kill_job ∷ rest) = events_of rest
events_of (close_job ∷ rest) = events_of rest

-- What the events tell of a run with this result, by whether its process was contained.
pub data Story (inv : Invocation) : Bool → Fallible Result → List LogEvent → Type 0 where
  silent : (e : Error) → Story inv false (err e) []
  lost :
      (e : Error) (pid : ℤ) (m : Mechanism)
      → Story inv true (err (start_error inv.program e)) (child_spawned inv.program pid m ∷ [])
  cancelled :
      (c : Option ContextError) (pid : ℤ) (m : Mechanism)
      → Story inv true
          (err (cancel_error inv.program c))
          (child_spawned inv.program pid m ∷ cancellation_fired inv.program ∷ [])
  ended :
      (r : Result) (pid : ℤ)
      → has_timed_out r.outcome ≡ false
      → Story inv true (ok r) (
          child_spawned inv.program pid r.mechanism
          ∷ process_exited inv.program r.outcome r.duration
          ∷ [])
  timed :
      (r : Result) (pid : ℤ)
      → has_timed_out r.outcome ≡ true
      → Story inv true (ok r) (
          child_spawned inv.program pid r.mechanism
          ∷ timeout_elapsed inv.program inv.timeout
          ∷ process_exited inv.program r.outcome r.duration
          ∷ [])

abbrev is_assign : Action → Bool
is_assign assign = true
is_assign _ = false

-- Whether the process was contained.
abbrev pub contained : List Action → Bool
contained actions = any is_assign actions

module _ (platform : Platform) (inv : Invocation) (s : Script) where
  -- The story of a contained process, from its wait on.
  abbrev Told : Fallible Result × List Action → Type 0
  Told r =
      Story inv (contained (assign ∷ (r.1 ++ close_job ∷ []))) r.0
        (child_spawned inv.program s.pid s.mechanism ∷ events_of (r.1 ++ close_job ∷ []))

  conclude-Told : Told (conclude platform inv s)
  unfolding conclude cancelled_by
  conclude-Told = elim (Option-cases s.ctx_after_wait) [
    | inr (c, e) ↦ rw (e, conclude) (cancelled (some c) s.pid s.mechanism)
    | inl e ↦ elim (Bool-cases (deadline_fired inv s)) [
      | inl d ↦
          rw (e, d, conclude)
            (timed _ s.pid (resolve_outcome-timed_out platform s.process_state true))
      | inr d ↦ elim (Option-cases (lost_state s)) [
        | inr (w, l) ↦ rw (e, d, l, conclude) (lost w s.pid s.mechanism)
        | inl l ↦
            rw (e, d, l, conclude)
              (ended (captured platform inv s) s.pid
                (resolve_outcome-timed_out platform s.process_state (deadline_fired inv s) ∙ d))
      ]
    ]
  ]

  -- A run logs nothing unless its process was contained. Of a contained process it logs the spawn, then,
  -- for a result, the exit with the result's outcome, after a timeout exactly where the outcome is one;
  -- for the caller's cancellation, that; and nothing more for a process whose wait failed without a state.
  pub output-Story :
      Story inv
        (contained (output platform inv s).1)
        (output platform inv s).0
        (events_of (output platform inv s).1)
  unfolding output supervise_child cancelled_by
  output-Story = elim (Option-cases s.ctx_before) [
    | inr (c, e) ↦ rw (e, output) (silent _)
    | inl e ↦ elim (Option-cases s.job_err) [
      | inr (j, f) ↦ rw (e, f, output) (silent _)
      | inl f ↦ elim (Option-cases s.configure_err) [
        | inr (k, h) ↦ rw (e, f, h, output) (silent _)
        | inl h ↦ elim (Option-cases s.start_err) [
          | inr (l, i) ↦ rw (e, f, h, i, output, supervise_child) (silent _)
          | inl i ↦ elim (Option-cases s.assign_err) [
            | inr (m, a) ↦ rw (e, f, h, i, a, output, supervise_child) (silent _)
            | inl a ↦ rw (e, f, h, i, a, output, supervise_child) conclude-Told
          ]
        ]
      ]
    ]
  ]
