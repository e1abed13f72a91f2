-- ===== src/Pipeline/Success.antt =====
-- When a chain's folded result is a success (pipeline.go).
use processkit_go.Prelude.{
  ℤ, eqb_ℤ, eqb_ℤ_iff, true, false, any, some, List, [], ◌∷◌, ◌++◌, Bytes, All, ◌≡◌, ◌↔◌, inl, inr,
  refl, sym, arith, Option-cases,
}
use processkit_go.Outcome.{Mechanism, code_of}
use processkit_go.Result.{Result, success, accepts}
use processkit_go.Pipeline.{
  StageOutcome, clean, failures, widened_ok_codes, last_of, speak, pipefail, first_culprit,
}
use processkit_go.Pipeline.Fold.{IsFailure, Blames, culprit, victim, Blames-culprit, failures-none}

-- The last stage ended with an exit code, not by a signal or a timeout.
abbrev pub Exited : StageOutcome → Type 0
Exited s = (code : ℤ) × (code_of s.outcome ≡ some code)

any-append : (c : ℤ) (cs : List ℤ) → any (λ d. eqb_ℤ c d) (cs ++ c ∷ []) ≡ true
any-append c [] = ground (arith, (eqb_ℤ_iff c c).1 refl)
any-append c (d ∷ cs) = ground (arith, any-append c cs)

Blames-IsFailure : {stages : List StageOutcome} {s : StageOutcome} → Blames stages s → IsFailure s
Blames-IsFailure (culprit before after split all f v) = f
Blames-IsFailure (victim before after split all f v) = f

speak_failure :
    (s : StageOutcome) (out : Bytes) (m : Mechanism) (d : ℤ)
    → IsFailure s
    → success (speak s s.ok_codes out m d) ≡ false
unfolding success clean
speak_failure s out m d f = ground arith

last_of-All :
    (P : StageOutcome → Type 0) (first : StageOutcome) (rest : List StageOutcome)
    → All P (first ∷ rest)
    → P (last_of first rest)
unfolding last_of
last_of-All P first [] h = h.0
last_of-All P first (s ∷ rest) h = last_of-All P s rest h.1

widened-accepts :
    (s : StageOutcome) (code : ℤ)
    → ¬ IsFailure s
    → code_of s.outcome ≡ some code
    → accepts (widened_ok_codes s) (some code) ≡ true
unfolding widened_ok_codes clean
widened-accepts s code fine e = ground (arith, any-append code s.ok_codes)

failures-All : (stages : List StageOutcome) → All (λ t. ¬ IsFailure t) stages → failures stages ≡ []
unfolding failures
failures-All [] h = refl
failures-All (t ∷ rest) h = ground (arith, failures-All rest h.1)

last_speaks_success :
    (s : StageOutcome) (code : ℤ) (out : Bytes) (m : Mechanism) (d : ℤ)
    → ¬ IsFailure s
    → code_of s.outcome ≡ some code
    → success (speak s (widened_ok_codes s) out m d) ≡ true
unfolding success
last_speaks_success s code out m d fine e = rw e (widened-accepts s code fine e)

success-code : (r : Result) → success r ≡ true → (code : ℤ) × (code_of r.outcome ≡ some code)
unfolding success
success-code r h = elim (Option-cases (code_of r.outcome)) [ inl e ↦ ground arith | inr e ↦ e ]

-- A chain succeeds exactly when no checked stage failed and the last stage, checked or exempt, ended
-- with an exit code.
pub pipefail-success :
    (first : StageOutcome) (rest : List StageOutcome) (stdout : Bytes) (m : Mechanism) (d : ℤ)
    → (success (pipefail first rest stdout m d) ≡ true)
      ↔ (All (λ t. ¬ IsFailure t) (first ∷ rest) × Exited (last_of first rest))
unfolding pipefail
pipefail-success first rest stdout m d = (to (failures (first ∷ rest)) refl, from)
  where
    exits :
        failures (first ∷ rest) ≡ []
        → success (pipefail first rest stdout m d) ≡ true
        → Exited (last_of first rest)
    exits e h = success-code _ (rw (e, pipefail) at h)

    to :
        (fs : List StageOutcome)
        → failures (first ∷ rest) ≡ fs
        → success (pipefail first rest stdout m d) ≡ true
        → All (λ t. ¬ IsFailure t) (first ∷ rest) × Exited (last_of first rest)
    to [] e h = (failures-none (first ∷ rest) e, exits e h)
    to (f ∷ fs) e h =
        let blamed = Blames-culprit (first ∷ rest) f fs e in
        let lost = speak_failure (first_culprit f (f ∷ fs)) stdout m d (Blames-IsFailure blamed) in
        cc (sym (rw (e, pipefail) at h), lost)

    from :
        All (λ t. ¬ IsFailure t) (first ∷ rest) × Exited (last_of first rest)
        → success (pipefail first rest stdout m d) ≡ true
    from (fine, (code, e)) =
        rw (failures-All (first ∷ rest) fine, pipefail)
          (last_speaks_success (last_of first rest) code stdout m d
            (last_of-All (λ t. ¬ IsFailure t) first rest fine) e)
