-- ===== src/Pipeline/Teardown.antt =====
-- What `Pipeline.Output` leaves behind (pipeline.go).
use processkit_go.Prelude.{
  ℤ, ℕ, zero, suc, ◌+◌, ◌-◌, ◌==◌, Bool, true, false, not, ◌&&◌, ◌||◌, List, [], ◌∷◌, ◌≡◌, sym,
  if◌then◌else◌, Option-cases, ◌⊎◌,
}
use processkit_go.Result.{Result}
use processkit_go.Pipeline.Output.{
  Pipeline, ChainAction, started, assigned, waited, close_ends, kill_chain, close_chain,
  chain_logged, Launched,
}

-- `unwaited` counts the started stages that no Wait has reaped; `unkilled` says that a stage was
-- started after the last kill of the job; `hung` that a Wait began while the parent held pipe ends or
-- that there was no stage to wait for.
pub record Remains : Type 0 where
  pub unwaited : ℕ
  pub unkilled : Bool
  pub ends_open : Bool
  pub hung : Bool
  pub job_open : Bool

abbrev pub one_less : ℕ → ℕ
one_less zero = zero
one_less (suc n) = n

abbrev pub is_zero : ℕ → Bool
is_zero zero = true
is_zero (suc n) = false

abbrev pub act : Remains → ChainAction → Remains
act r (started i) = record r { unwaited = suc r.unwaited; unkilled = true }
act r (assigned i) = r
act r (waited i) = record r {
  unwaited = one_less r.unwaited;
  hung = r.hung || (r.ends_open || is_zero r.unwaited);
}
act r close_ends = record r { ends_open = false }
act r kill_chain = record r { unkilled = false }
act r close_chain = record r { job_open = false }
act r (chain_logged e) = r

abbrev pub replay : Remains → List ChainAction → Remains
replay r [] = r
replay r (a ∷ rest) = replay (act r a) rest

-- With the job open, `k` stages running, and whether one has been started.
abbrev running : ℕ → Bool → Remains
running k unkilled = record {
  unwaited = k;
  unkilled = unkilled;
  ends_open = true;
  hung = false;
  job_open = true;
}

abbrev drained : ℕ → Bool → Remains
drained k unkilled = record {
  unwaited = k;
  unkilled = unkilled;
  ends_open = false;
  hung = false;
  job_open = true;
}

-- Nothing runs and nothing is held.
abbrev pub nothing_remains : Remains
nothing_remains = record {
  unwaited = 0;
  unkilled = false;
  ends_open = false;
  hung = false;
  job_open = false;
}

-- What the starting loop leaves: `n` more stages run.
record Ran (k : ℕ) (u : Bool) (l : Launched) : Type 0 where
  pub unkilled : Bool
  pub left : replay (running k u) l.1 ≡ running (k + l.2) unkilled

-- The start of a run whose actions are these: a job is open unless there are none.
abbrev pub opened : List ChainAction → Remains
opened [] = nothing_remains
opened (a ∷ rest) = running 0 false
