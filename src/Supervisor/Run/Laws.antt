-- ===== src/Supervisor/Run/Laws.antt =====
-- What the report of `Supervisor.Run` of supervisor.go says of its final run.
use processkit_go.Prelude.{
  pos, pos_part, leb_ℤ, ℕ, suc, ◌≤◌, Bool, true, false, not, none, some, ◌≡◌, ◌≢◌, inl, inr, refl,
  ◌∙◌, arith, Bool-cases,
}
use processkit_go.Errors.{Error, Fallible, ok, err}
use processkit_go.Result.{Result, success}
use processkit_go.Floats.{Floats}
use processkit_go.Supervisor.{
  wants_restart, stopped_by_predicate, stopped_policy_satisfied, stopped_restarts_exhausted,
  SupervisionOutcome, Supervisor,
}
use processkit_go.Supervisor.Run.{Progress, begin, matches, judge, report, verdict}
use processkit_go.Supervisor.Run.Effect.{Advanced}

-- What a report says of its final run.
pub record Truthful (f : Floats) (s : Supervisor f) (o : SupervisionOutcome) : Type 0 where
  pub predicate : o.stopped ≡ stopped_by_predicate → matches s.stop_when o.final ≡ true
  pub satisfied :
      o.stopped ≡ stopped_policy_satisfied → wants_restart s.policy (not (success o.final)) ≡ false
  pub budget : o.stopped ≡ stopped_restarts_exhausted → s.max_restarts ≡ pos o.restarts
  pub wanted :
      o.stopped ≡ stopped_restarts_exhausted → wants_restart s.policy (not (success o.final)) ≡ true
  pub within : (n : ℕ) → s.max_restarts ≡ pos n → o.restarts ≤ n
  pub pauses : o.storm_pauses ≤ o.restarts
  pub guard_off : leb_ℤ s.storm_pause (pos 0) ≡ true → o.storm_pauses ≡ 0

-- What holds between two incarnations.
pub record Inv (f : Floats) (s : Supervisor f) (p : Progress f) : Type 0 where
  pub in_budget : (n : ℕ) → s.max_restarts ≡ pos n → p.restarts ≤ n
  pub pauses : p.storm_pauses ≤ p.restarts
  pub guard_off : leb_ℤ s.storm_pause (pos 0) ≡ true → p.storm_pauses ≡ 0

module _ (f : Floats) (s : Supervisor f) where
  pub Inv-begin : Inv f s (begin f)
  unfolding begin
  Inv-begin = record { in_budget = λ n e. omega arith; pauses = omega arith; guard_off = λ e. refl }

  -- Another run is made only below the budget.
  pub verdict-budget :
      (p : Progress f) (res : Fallible Result) (n : ℕ)
      → verdict f s p res ≡ none
      → s.max_restarts ≡ pos n
      → suc p.restarts ≤ n
  unfolding verdict judge
  verdict-budget p (ok r) n h e = ground arith
  verdict-budget p (err e') n h e = ground arith

  pub Inv-advance :
      (p p' : Progress f) (res : Fallible Result)
      → verdict f s p res ≡ none
      → Advanced f s p p'
      → Inv f s p
      → Inv f s p'
  Inv-advance p p' res h a i = record {
    in_budget = λ n e. omega (arith, verdict-budget p res n h e, a.one_more);
    pauses = omega (arith, a.one_more, a.at_most_one, i.pauses);
    guard_off = λ e. a.only_if_on e ∙ i.guard_off e;
  }

  judge-Truthful :
      (p : Progress f) (r : Result) (o : SupervisionOutcome)
      → judge f s p (not (success r)) (ok r) ≡ some (ok o)
      → Inv f s p
      → Truthful f s o × (o.restarts ≡ p.restarts)
  unfolding judge
  judge-Truthful p r o h i = (
    record {
      predicate = λ e. ground arith;
      satisfied = λ e. ground arith;
      budget = λ e. ground (arith, i.in_budget (pos_part s.max_restarts));
      wanted = λ e. ground arith;
      within = λ n e. ground (arith, i.in_budget n);
      pauses = ground (arith, i.pauses);
      guard_off = λ e. ground (arith, i.guard_off e);
    },
    ground arith,
  )

  judge-err :
      (p : Progress f) (crashed : Bool) (e : Error) (o : SupervisionOutcome)
      → judge f s p crashed (err e) ≢ some (ok o)
  unfolding judge
  judge-err p crashed e o h = ground arith

  stopped-Truthful :
      (p : Progress f) (r : Result) (o : SupervisionOutcome)
      → matches s.stop_when r ≡ true
      → report f p (ok r) stopped_by_predicate ≡ ok o
      → Inv f s p
      → Truthful f s o × (o.restarts ≡ p.restarts)
  stopped-Truthful p r o m h i = (
    record {
      predicate = λ e. ground arith;
      satisfied = λ e. ground arith;
      budget = λ e. ground arith;
      wanted = λ e. ground arith;
      within = λ n e. ground (arith, i.in_budget n);
      pauses = ground (arith, i.pauses);
      guard_off = λ e. ground (arith, i.guard_off e);
    },
    ground arith,
  )

  pub verdict-Truthful :
      (p : Progress f) (res : Fallible Result) (o : SupervisionOutcome)
      → verdict f s p res ≡ some (ok o)
      → Inv f s p
      → Truthful f s o × (o.restarts ≡ p.restarts)
  unfolding verdict
  verdict-Truthful p (err e) o h i = ground (arith, judge-err p true e o)
  verdict-Truthful p (ok r) o h i = elim (Bool-cases (matches s.stop_when r)) [
    | inl e ↦ stopped-Truthful p r o e (cc (rw (e, verdict) at h)) i
    | inr e ↦ judge-Truthful p r o (rw (e, verdict) at h) i
  ]
