-- ===== src/Result/Verbs.antt =====
-- The success rule of result.go against a description of it, and what each verb makes of a result.
use mathlib.Core.List.{Memᴰ}
use processkit_go.Prelude.{
  ℤ, pos, eqb_ℤ, eqb_ℤ_iff, Bool, true, false, some, List, [], ◌∷◌, any, ◌≡◌, ◌↔◌, ◌⊎◌, inl, inr,
  arith, Bool-cases, Option-cases, if◌then◌else◌,
}
use processkit_go.Outcome.{code_of, has_timed_out}
use processkit_go.Errors.{Error, ok, err, errors_is, err_timeout}
use processkit_go.Result.{
  Result, accepts, success, err_of, to_exit_error, stdout_text, trim_right, is_space, result_run,
  result_exit_code, result_probe,
}

any-mem : (c : ℤ) (ok_codes : List ℤ) → any (λ d. eqb_ℤ c d) ok_codes ≡ true → Memᴰ c ok_codes
any-mem c [] h = cc
any-mem c (d ∷ ds) h = elim (Bool-cases (eqb_ℤ c d)) [
  | inl e ↦ Memᴰ.head ((eqb_ℤ_iff c d).0 e)
  | inr e ↦ Memᴰ.tail (any-mem c ds (ground arith))
]

mem-any : {c : ℤ} {ok_codes : List ℤ} → Memᴰ c ok_codes → any (λ d. eqb_ℤ c d) ok_codes ≡ true
mem-any {c} (Memᴰ.head {x = d} e) = ground (arith, (eqb_ℤ_iff c d).1 e)
mem-any (Memᴰ.tail m) = ground (arith, mem-any m)

-- An exit code that is 0 or among the ok-codes.
abbrev pub Succeeded : Result → Type 0
Succeeded r = (code : ℤ) × (code_of r.outcome ≡ some code) × ((code ≡ pos 0) ⊎ Memᴰ code r.ok_codes)

accepts-some :
    (ok_codes : List ℤ) (code : ℤ)
    → (accepts ok_codes (some code) ≡ true) ↔ ((code ≡ pos 0) ⊎ Memᴰ code ok_codes)
accepts-some ok_codes code = (to, from)
  where
    to : accepts ok_codes (some code) ≡ true → (code ≡ pos 0) ⊎ Memᴰ code ok_codes
    to h = elim (Bool-cases (eqb_ℤ code (pos 0))) [
      | inl z ↦ inl ((eqb_ℤ_iff code (pos 0)).0 z)
      | inr nz ↦ inr (any-mem code ok_codes (ground arith))
    ]

    from : (code ≡ pos 0) ⊎ Memᴰ code ok_codes → accepts ok_codes (some code) ≡ true
    from (inl z) = ground (arith, (eqb_ℤ_iff code (pos 0)).1 z)
    from (inr m) = ground (arith, mem-any m)

success_iff : (r : Result) → (success r ≡ true) ↔ Succeeded r
unfolding success
success_iff r = (to, from)
  where
    to : accepts r.ok_codes (code_of r.outcome) ≡ true → Succeeded r
    to h = elim (Option-cases (code_of r.outcome)) [
      | inl e ↦ ground arith
      | inr (c, e) ↦ (c, e, (accepts-some r.ok_codes c).0 (rw e at h))
    ]

    from : Succeeded r → accepts r.ok_codes (code_of r.outcome) ≡ true
    from (c, e, m) = rw e ((accepts-some r.ok_codes c).1 m)

-- Run gives the normalised standard output without its trailing white space when the process exited
-- with 0 or an ok-code, and the exit error of the result in every other case.
result_run_cases :
    (r : Result)
    → (Succeeded r × (result_run r ≡ ok (trim_right is_space (stdout_text r))))
      ⊎ ((¬ Succeeded r) × (result_run r ≡ err (to_exit_error r)))
unfolding result_run err_of
result_run_cases r = elim (Bool-cases (success r)) [
  | inl e ↦ inl ((success_iff r).0 e, rw (e, result_run))
  | inr e ↦ inr (λ s. (let f = (success_iff r).1 s in cc), rw (e, result_run))
]

-- The error of a verb (Run, ExitCode or Probe) matches ErrTimeout exactly when the run timed out.
pub verb_error_timeout :
    (r : Result) (e : Error)
    → (result_run r ≡ err e) ⊎ ((result_exit_code r ≡ err e) ⊎ (result_probe r ≡ err e))
    → errors_is e err_timeout ≡ has_timed_out r.outcome
unfolding result_run err_of result_exit_code result_probe errors_is to_exit_error
verb_error_timeout r e h = ground arith

-- Probe answers a Boolean exactly when ExitCode answers 0 (for true) or 1 (for false), whatever the
-- ok-codes are.
pub result_probe-exit_code :
    (r : Result) (b : Bool)
    → (result_probe r ≡ ok b) ↔ (result_exit_code r ≡ ok (if b then pos 0 else pos 1))
unfolding result_probe result_exit_code
result_probe-exit_code r true = ground arith
result_probe-exit_code r false = ground arith
