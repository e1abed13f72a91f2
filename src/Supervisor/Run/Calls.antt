-- ===== src/Supervisor/Run/Calls.antt =====
-- `Supervisor.Run` of supervisor.go seen through a recording runner: it ends within its restart
-- budget, and every run is of the supervised command.
use processkit_go.Prelude.{
  pos, ℕ, zero, suc, ◌+◌, ◌≤◌, Option, some, Bytes, List, [], ◌∷◌, ◌++◌, ◌≡◌, ◌⊎◌, inl, inr, refl,
  sym, ◌∙◌, arith, replicate, append_assoc, append-nil,
}
use processkit_go.Errors.{Fallible, ok, err}
use processkit_go.Result.{Invocation, Result}
use processkit_go.World.{Runner}
use processkit_go.Floats.{Floats}
use processkit_go.Testkit.Recording.{Recorded, recording, calls_of}
use processkit_go.Supervisor.{SupervisionOutcome, Supervisor}
use processkit_go.Supervisor.Run.{Turn, Env, Progress, begin, verdict, incarnation, loop, run}
use processkit_go.Supervisor.Run.Effect.{
  Aborted, aborted, Effect, aborts, concludes, goes_on, incarnation-Effect,
}
use processkit_go.Supervisor.Run.Laws.{
  Truthful, Inv, Inv-begin, verdict-budget, Inv-advance, verdict-Truthful,
}
use processkit_go.Supervisor.Run.Recorded.{beside_env, incarnation_calls}

-- A report is truthful and counts `k` runs.
abbrev pub ReportsRuns : (f : Floats) → Supervisor f → ℕ → Fallible SupervisionOutcome → Type 0
ReportsRuns f s k (ok o) = Truthful f s o × (suc o.restarts ≡ k)
ReportsRuns f s k (err e) = Unit

module _ (f : Floats) (s : Supervisor f) {W : Type 0} (env : Env f W) (program : Bytes)
    (runner : Runner W) (inv : Invocation) where
  -- The loop's answer: how many calls it has added, and what its report says.
  abbrev Reports : Progress f → ℕ → Fallible SupervisionOutcome → Type 0
  Reports p k (ok o) = Truthful f s o × (suc o.restarts ≡ p.restarts + k)
  Reports p k (err e) = Unit

  abbrev Answers :
      ℕ → Progress f → Recorded W → Option (Fallible SupervisionOutcome × Recorded W) → Type 0
  Answers fuel p w result =
      (r : Fallible SupervisionOutcome) × (w' : Recorded W) × (k : ℕ) × (result ≡ some (r, w'))
      × (w'.1 ≡ w.1 ++ replicate k inv)
      × (k ≤ fuel)
      × Reports p k r

  regroup :
      (w' w : Recorded W)
      → w'.1 ≡ w.1 ++ inv ∷ []
      → (k : ℕ) → w'.1 ++ replicate k inv ≡ w.1 ++ replicate (suc k) inv
  regroup w' w e k = rw e (append_assoc w.1 (inv ∷ []) (replicate k inv))

  none_added : (w' w : Recorded W) → w'.1 ≡ w.1 → w'.1 ≡ w.1 ++ replicate 0 inv
  none_added w' w e = e ∙ sym (append-nil w.1)

  final_report :
      (p : Progress f) (res : Fallible Result) (r : Fallible SupervisionOutcome)
      → verdict f s p res ≡ some r
      → Inv f s p
      → Reports p 1 r
  final_report p res (err e) v i = tt
  final_report p res (ok o) v i =
      let (truthful, same) = verdict-Truthful f s p res o v i in (truthful, omega arith)

  Reports-later :
      (p p' : Progress f) (k : ℕ) (r : Fallible SupervisionOutcome)
      → p'.restarts ≡ suc p.restarts
      → Reports p' k r
      → Reports p (suc k) r
  Reports-later p p' k (err e) a h = tt
  Reports-later p p' k (ok o) a (truthful, count) = (truthful, omega arith)

  loop-Answers :
      (n fuel : ℕ) (p : Progress f) (w : Recorded W)
      → s.max_restarts ≡ pos n
      → p.restarts + fuel ≡ suc n
      → 1 ≤ fuel
      → Inv f s p
      → Answers fuel p w (loop f (beside_env f env) program s (recording runner) inv fuel p w)
  unfolding loop
  loop-Answers n zero p w m e h i = absurd (omega arith)
  loop-Answers n (suc fuel) p w m e h i =
      go (incarnation-Effect f s (beside_env f env) program (recording runner) inv p w)
        (incarnation_calls f s env program runner inv p w) (loop-Answers n fuel)
    where
      turn : Turn (Progress f) × Recorded W
      turn = incarnation f (beside_env f env) program s (recording runner) inv p w

      go :
          Effect f s program p (recording runner inv w).0 turn.0
          → (turn.1.1 ≡ w.1 ++ inv ∷ []) ⊎ ((turn.1.1 ≡ w.1) × Aborted program turn.0)
          → ((p' : Progress f) (w' : Recorded W)
              → s.max_restarts ≡ pos n
              → p'.restarts + fuel ≡ suc n
              → 1 ≤ fuel
              → Inv f s p'
              → Answers fuel p' w'
                  (loop f (beside_env f env) program s (recording runner) inv fuel p' w'))
          → Answers
              (suc fuel)
              p
              w
              (loop f (beside_env f env) program s (recording runner) inv (suc fuel) p w)
      go (aborts (aborted c t)) (inl made) ih = rw (t, loop) (_, _, 1, refl, made, omega arith, tt)
      go (concludes r v t) (inl made) ih =
          rw (t, loop) (r, _, 1, refl, made, omega arith, final_report p _ r v i)
      go (goes_on p' v a t) (inl made) ih =
          let room = verdict-budget f s p (recording runner inv w).0 n v m in
          let (r, w', k, ran, calls, few, says) =
            ih p' turn.1 m (omega (arith, a.one_more)) (omega arith)
              (Inv-advance f s p p' _ v a i) in
          rw (t, loop)
            (
              r,
              w',
              suc k,
              ran,
              calls ∙ regroup turn.1 w made k,
              omega arith,
              Reports-later p p' k r a.one_more says,
            )
      go _ (inr (unmade, aborted c t)) ih =
          rw (t, loop) (_, _, 0, refl, none_added turn.1 w unmade, omega arith, tt)

-- With a budget of `n` restarts, supervision ends within `n + 1` runs whatever the runner, the
-- context, the timers, the clock and the random source do. Every run is of the supervised command's
-- invocation. A report counts its runs (one more than its restarts, which are at most `n`), and it
-- is truthful: a stop by the predicate had the predicate hold of the final run, a stop by the policy
-- had the policy want no further run, a stop by the budget had it want one with all `n` restarts
-- used. The storm pauses are at most the restarts, and none if the storm guard is off.
pub run_within_budget :
    (f : Floats) (s : Supervisor f) {W : Type 0} (env : Env f W) (program : Bytes)
    (runner : Runner W) (inv : Invocation) (n : ℕ) (w : W) (calls : List Invocation)
    → s.max_restarts ≡ pos n
    → (r : Fallible SupervisionOutcome) × (w' : Recorded W) × (k : ℕ) × (run f
          (beside_env f env)
          program
          s
          (recording runner)
          inv
          (suc n)
          (w, calls)
        ≡ some (r, w'))
      × (calls_of w' ≡ calls ++ replicate k inv)
      × (k ≤ suc n)
      × ReportsRuns f s k r
unfolding run calls_of begin
run_within_budget f s {W} env program runner inv n w calls m = finish (
    loop-Answers f s env program runner inv n (suc n) (begin f) (w, calls) m (omega arith)
      (omega arith) (Inv-begin f s))
  where
    finish :
        Answers f s env program runner inv
          (suc n)
          (begin f)
          (w, calls)
          (loop f (beside_env f env) program s (recording runner) inv (suc n) (begin f) (w, calls))
        → (r : Fallible SupervisionOutcome) × (w' : Recorded W) × (k : ℕ) × (run f
              (beside_env f env)
              program
              s
              (recording runner)
              inv
              (suc n)
              (w, calls)
            ≡ some (r, w'))
          × (calls_of w' ≡ calls ++ replicate k inv)
          × (k ≤ suc n)
          × ReportsRuns f s k r
    finish (err e, w', k, ran, made, few, says) = (err e, w', k, ran, made, few, tt)
    finish (ok o, w', k, ran, made, few, says) =
        (ok o, w', k, ran, made, few, (says.0, omega (arith, says.1)))
