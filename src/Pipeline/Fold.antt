-- ===== src/Pipeline/Fold.antt =====
-- What `pipefail` of pipeline.go blames.

use processkit_go.Prelude.{
  ℤ, true, not, ◌&&◌, List, [], ◌∷◌, ◌++◌, Bytes, All, ◌≡◌, inl, inr, refl, if◌then◌else◌, ap,
  arith, Bool-cases,
}
use processkit_go.Outcome.{Mechanism}
use processkit_go.Result.{Result}
use processkit_go.Pipeline.{
  StageOutcome, is_sigpipe, failed, failures, first_culprit, last_of, pipefail,
}

-- A stage that is checked and exited with neither 0 nor an ok-code.
abbrev pub IsFailure : StageOutcome → Type 0
IsFailure s = failed s ≡ true

abbrev pub IsVictim : StageOutcome → Type 0
IsVictim s = is_sigpipe s.outcome ≡ true

-- The stage that a failed chain is attributed to: the first failure that is no SIGPIPE victim, or,
-- where every failure is a victim, the first failure.
pub data Blames (stages : List StageOutcome) (s : StageOutcome) : Type 0 where
  culprit :
      (before after : List StageOutcome)
      → stages ≡ before ++ s ∷ after
      → All (λ t. IsFailure t → IsVictim t) before
      → IsFailure s
      → ¬ IsVictim s
      → Blames stages s
  victim :
      (before after : List StageOutcome)
      → stages ≡ before ++ s ∷ after
      → All (λ t. ¬ IsFailure t) before
      → IsFailure s
      → All (λ t. IsFailure t → IsVictim t) stages
      → Blames stages s

pub failures-none :
    (stages : List StageOutcome) → failures stages ≡ [] → All (λ t. ¬ IsFailure t) stages
unfolding failures
failures-none [] h = tt
failures-none (t ∷ rest) h = elim (Bool-cases (failed t)) [
  | inl e ↦ absurd (ground arith)
  | inr e ↦ (λ f. ground arith, failures-none rest (ground arith))
]

-- Skips the stages that are no failure.
failures-first :
    (stages : List StageOutcome) (f : StageOutcome) (fs : List StageOutcome)
    → failures stages ≡ f ∷ fs
    → (before : List StageOutcome) × (after : List StageOutcome) × (stages ≡ before ++ f ∷ after)
      × All (λ t. ¬ IsFailure t) before
      × IsFailure f
unfolding failures
failures-first [] f fs h = cc
failures-first (t ∷ rest) f fs h = elim (Bool-cases (failed t)) [
  | inl e ↦ let same : t ≡ f = ground arith in ([], rest, ap (λ x. x ∷ rest) same, tt, rw same at e)
  | inr e ↦
      let (before, after, split, none_failed, is_failure) =
        failures-first rest f fs (ground arith) in
      (t ∷ before, after, ap (λ l. t ∷ l) split, (λ x. ground arith, none_failed), is_failure)
]

-- Either there is a failure that is no victim, and the first of them is taken, or all are victims.
data Culprit (d c : StageOutcome) (stages : List StageOutcome) : Type 0 where
  found :
      (before after : List StageOutcome)
      → stages ≡ before ++ c ∷ after
      → All (λ t. IsFailure t → IsVictim t) before
      → IsFailure c
      → ¬ IsVictim c
      → Culprit d c stages
  default : All (λ t. IsFailure t → IsVictim t) stages → c ≡ d → Culprit d c stages

Culprit-skip :
    (d c t : StageOutcome) (rest : List StageOutcome)
    → (IsFailure t → IsVictim t)
    → Culprit d c rest
    → Culprit d c (t ∷ rest)
Culprit-skip d c t rest h (found before after split all f v) =
    found (t ∷ before) after (ap (λ l. t ∷ l) split) (h, all) f v
Culprit-skip d c t rest h (default all e) = default (h, all) e

first_culprit-failures :
    (d t : StageOutcome) (rest : List StageOutcome)
    → first_culprit d (failures (t ∷ rest))
      ≡ (if failed t && not (is_sigpipe t.outcome) then t else first_culprit d (failures rest))
unfolding first_culprit failures
first_culprit-failures d t rest = ground arith

Culprit-failures :
    (d : StageOutcome) (stages : List StageOutcome)
    → Culprit d (first_culprit d (failures stages)) stages
Culprit-failures d [] = unfold failures first_culprit in default tt refl
Culprit-failures d (t ∷ rest) = elim (Bool-cases (failed t && not (is_sigpipe t.outcome))) [
  | inl e ↦
      rw (first_culprit-failures, e) (found [] rest refl tt (ground arith) (λ v. ground arith))
  | inr e ↦
      rw (first_culprit-failures, e)
        (Culprit-skip d (first_culprit d (failures rest)) t rest (λ f. ground arith)
          (Culprit-failures d rest))
]

-- What a chain's result is, stated with no fold.
pub data Attribution (first : StageOutcome) (rest : List StageOutcome) (r : Result) : Type 0 where
  blame :
      (s : StageOutcome)
      → Blames (first ∷ rest) s
      → r.program ≡ s.program
      → r.args ≡ s.args
      → r.outcome ≡ s.outcome
      → r.stderr ≡ s.stderr
      → r.ok_codes ≡ s.ok_codes
      → Attribution first rest r
  last_speaks :
      All (λ t. ¬ IsFailure t) (first ∷ rest)
      → r.program ≡ (last_of first rest).program
      → r.args ≡ (last_of first rest).args
      → r.outcome ≡ (last_of first rest).outcome
      → r.stderr ≡ (last_of first rest).stderr
      → Attribution first rest r

pub Blames-culprit :
    (stages : List StageOutcome) (f : StageOutcome) (fs : List StageOutcome)
    → failures stages ≡ f ∷ fs
    → Blames stages (first_culprit f (f ∷ fs))
Blames-culprit stages f fs e =
    blamed (rw e at (Culprit-failures f stages)) (failures-first stages f fs e)
  where
    blamed :
        Culprit f (first_culprit f (f ∷ fs)) stages
        → (before : List StageOutcome) × (after : List StageOutcome) × (stages
            ≡ before ++ f ∷ after)
          × All (λ t. ¬ IsFailure t) before
          × IsFailure f
        → Blames stages (first_culprit f (f ∷ fs))
    blamed (found before after split all is_failure not_victim) _ =
        culprit before after split all is_failure not_victim
    blamed (default all same) (before, after, split, none_failed, is_failure) =
        rw same (victim before after split none_failed is_failure all)

-- The pipefail fold attributes a chain with a checked failure to the first failing stage that was
-- not killed by SIGPIPE, or to the first failing stage where SIGPIPE killed them all, with that
-- stage's program, arguments, outcome, standard error and ok-codes. With no checked failure the last
-- stage speaks.
pub pipefail-Attribution :
    (first : StageOutcome) (rest : List StageOutcome) (stdout : Bytes) (m : Mechanism) (d : ℤ)
    → Attribution first rest (pipefail first rest stdout m d)
unfolding pipefail
pipefail-Attribution first rest stdout m d = go (failures (first ∷ rest)) refl
  where
    go :
        (fs : List StageOutcome)
        → failures (first ∷ rest) ≡ fs
        → Attribution first rest (pipefail first rest stdout m d)
    go [] e = rw (e, pipefail) (last_speaks (failures-none (first ∷ rest) e) refl refl refl refl)
    go (f ∷ fs) e =
        rw (e, pipefail) (blame _ (Blames-culprit (first ∷ rest) f fs e) refl refl refl refl refl)
