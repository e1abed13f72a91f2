-- ===== src/Runner/Laws.antt =====
-- What `JobRunner.Output` of runner.go guarantees on every path.
use processkit_go.Prelude.{
  Bool, true, false, not, ◌&&◌, Option, none, some, List, [], ◌∷◌, ◌≡◌, refl, arith,
}
use processkit_go.Outcome.{
  ProcessState, Platform, unix, windows, outcome_of, exited, timed_out, has_timed_out,
}
use processkit_go.Errors.{ok}
use processkit_go.Result.{Invocation, Result}
use processkit_go.Runner.{
  Action, make_job, start, assign, assign_failed, wait, kill_job, close_job, logged, Script,
  cancelled_by, resolve_outcome, deadline_fired, conclude, supervise_child, output,
}

-- What is left behind: processes that no job contains, processes of the job, a child that was not
-- waited for, and a job that is open.
pub record Leftovers : Type 0 where
  pub loose : Bool
  pub tree_alive : Bool
  pub unreaped : Bool
  pub job_open : Bool

-- A kill reaches what an open job contains. A failed Assign leaves no process outside the job, which
-- sys.go asks of a `Job`; some may be in it.
abbrev pub act : Leftovers → Action → Leftovers
act l make_job = record l { job_open = true }
act l start = record l { loose = true; unreaped = true }
act l assign = record l { loose = false; tree_alive = true }
act l assign_failed = record l { loose = false; tree_alive = true }
act l wait = record l { unreaped = false }
act l kill_job = record l { tree_alive = l.tree_alive && not l.job_open }
act l close_job = record l { job_open = false }
act l (logged e) = l

abbrev pub replay : Leftovers → List Action → Leftovers
replay l [] = l
replay l (a ∷ rest) = replay (act l a) rest

abbrev pub nothing_left : Leftovers
nothing_left = record { loose = false; tree_alive = false; unreaped = false; job_open = false }

-- On every path, errors included, a started child has been waited for, its whole tree killed and the
-- job that was made closed by the time `Output` returns. A failed Assign is taken to leave no process
-- outside the job.
pub output_no_orphan :
    (platform : Platform) (inv : Invocation) (s : Script)
    → replay nothing_left (output platform inv s).1 ≡ nothing_left
unfolding output supervise_child conclude
output_no_orphan platform inv s = ground arith

outcome_of-not_timed_out :
    (p : Platform) (ps : ProcessState) → has_timed_out (outcome_of p ps) ≡ false
unfolding outcome_of has_timed_out
outcome_of-not_timed_out unix ps = ground arith
outcome_of-not_timed_out windows ps = refl

pub resolve_outcome-timed_out :
    (p : Platform) (ps : Option ProcessState) (deadline : Bool)
    → has_timed_out (resolve_outcome p ps deadline) ≡ deadline
unfolding resolve_outcome
resolve_outcome-timed_out p ps true = unfold timed_out has_timed_out in refl
resolve_outcome-timed_out p (some ps) false = outcome_of-not_timed_out p ps
resolve_outcome-timed_out p none false = unfold exited has_timed_out in refl

-- A captured result means that the caller's context never ended the run, and it reports a timeout
-- exactly when the run's own deadline fired.
pub output_captured :
    (platform : Platform) (inv : Invocation) (s : Script) (r : Result)
    → (output platform inv s).0 ≡ ok r
    → (s.ctx_before ≡ none)
      × (s.ctx_after_wait ≡ none)
      × (has_timed_out r.outcome ≡ deadline_fired inv s)
unfolding output supervise_child conclude cancelled_by
output_captured platform inv s r h =
    ground (arith, resolve_outcome-timed_out platform s.process_state (deadline_fired inv s))
