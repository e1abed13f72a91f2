-- ===== src/Group/Limits.antt =====
-- How `NewGroup` of group.go applies the caps of its options.
-- `sys.NewJob` and `err.Error()` are parameters.
use processkit_go.Prelude.{
  arith, ℕ, ◌<◌, [], ◌==◌, Bool, true, false, not, ◌&&◌, Option, none, some, Bytes, codes,
  if◌then◌else◌, ◌≡◌, refl, subst,
}
use processkit_go.Outcome.{Mechanism}
use processkit_go.Errors.{
  Error, Fallible, ok, err, resource_limit_error, start_error, nil, cause, errors_is,
  err_resource_limit,
}
use processkit_go.Floats.{Floats}
use processkit_go.Sys.Limits.{Limits, any_limit}
use processkit_go.Group.{Group, new_group}

some-injective : {a b : Error} → some a ≡ some b → a ≡ b
some-injective e = ground arith

module _ (f : Floats) where
  -- The options of `NewGroup`, on the caps.
  unfoldable pub with_memory_max : ℕ → Limits f → Limits f
  with_memory_max bytes l = record l { memory_max = bytes; has_memory_max = true }

  unfoldable pub with_max_processes : ℕ → Limits f → Limits f
  with_max_processes n l = record l { max_processes = n; has_max_processes = true }

  unfoldable pub with_cpu_quota : f.Float → Limits f → Limits f
  with_cpu_quota cores l = record l { cpu_quota = cores; has_cpu_quota = true }

  abbrev bad_memory : Limits f → Bool
  bad_memory l = l.has_memory_max && l.memory_max == 0

  abbrev bad_processes : Limits f → Bool
  bad_processes l = l.has_max_processes && l.max_processes == 0

  abbrev bad_quota : Limits f → Bool
  bad_quota l = l.has_cpu_quota && not (f.above l.cpu_quota f.zero_f && not (f.is_inf l.cpu_quota))

  abbrev refusal : Bytes → Bytes → Error
  refusal limit reason = resource_limit_error limit reason nil

  -- `validateLimits`.
  unfoldable pub validate_limits : Limits f → Option Error
  validate_limits l =
      if bad_memory l
      then some (refusal (codes "memory") (codes "memory max must be greater than 0"))
      else if bad_processes l
      then some (refusal (codes "processes") (codes "max processes must be greater than 0"))
      else if bad_quota l
      then some (refusal (codes "cpu") (codes "cpu quota must be a finite value greater than 0"))
      else none

  module _ {J : Type 0} (new_job : Limits f → Fallible J) (mechanism_of : J → Mechanism)
      (text_of : Error → Bytes) where
    -- The error of a job that could not be made.
    unfoldable pub job_error : Bool → Error → Error
    job_error true e = resource_limit_error [] (text_of e) (cause e)
    job_error false e = start_error (codes "<group>") e

    unfoldable pub on_job : Bool → Fallible J → Fallible (Group J)
    on_job limited (err e) = err (job_error limited e)
    on_job limited (ok job) = ok (new_group (mechanism_of job) job)

    unfoldable pub on_validated : Limits f → Option Error → Fallible (Group J)
    on_validated l (some e) = err e
    on_validated l none = on_job (any_limit f l) (new_job l)

    -- `NewGroup`, with the options applied.
    unfoldable pub make_group : Limits f → Fallible (Group J)
    make_group l = on_validated l (validate_limits l)

    -- Each cap that is asked for is a positive one; a quota is finite, too.
    pub record Valid (l : Limits f) : Type 0 where
      pub memory : l.has_memory_max ≡ true → 0 < l.memory_max
      pub processes : l.has_max_processes ≡ true → 0 < l.max_processes
      pub quota_positive : l.has_cpu_quota ≡ true → f.above l.cpu_quota f.zero_f ≡ true
      pub quota_finite : l.has_cpu_quota ≡ true → f.is_inf l.cpu_quota ≡ false

    validate_limits-Valid : (l : Limits f) → validate_limits l ≡ none → Valid l
    unfolding validate_limits
    validate_limits-Valid l h = record {
      memory = λ e. ground arith;
      processes = λ e. ground arith;
      quota_positive = λ e. ground arith;
      quota_finite = λ e. ground arith;
    }

    -- What `NewGroup` may answer when caps are asked for.
    pub data Capped (l : Limits f) : Fallible (Group J) → Type 0 where
      enforced :
          (job : J)
          → Valid l
          → new_job l ≡ ok job
          → Capped l (ok (new_group (mechanism_of job) job))
      not_enforced : (e : Error) → errors_is e err_resource_limit ≡ true → Capped l (err e)

    on_job-Capped :
        (l : Limits f) (limited : Bool) (made : Fallible J)
        → limited ≡ true
        → validate_limits l ≡ none
        → new_job l ≡ made
        → Capped l (on_job limited made)
    unfolding on_job job_error errors_is
    on_job-Capped l true (ok job) any valid made = enforced job (validate_limits-Valid l valid) made
    on_job-Capped l true (err e) any valid made = not_enforced _ refl
    on_job-Capped l false made any valid e = absurd (ground arith)

    validate_limits-resource :
        (l : Limits f) (e : Error)
        → validate_limits l ≡ some e
        → errors_is e err_resource_limit ≡ true
    unfolding validate_limits errors_is
    validate_limits-resource l e h = go (bad_memory l) (bad_processes l) (bad_quota l) h
      where
        is_limit :
            (r : Error)
            → errors_is r err_resource_limit ≡ true
            → some r ≡ some e
            → errors_is e err_resource_limit ≡ true
        is_limit r known h =
            subst (λ x. errors_is x err_resource_limit ≡ true) (some-injective h) known

        go :
            (a b c : Bool)
            → (if a
                then some (refusal (codes "memory") (codes "memory max must be greater than 0"))
                else if b
                then some
                    (refusal (codes "processes") (codes "max processes must be greater than 0"))
                else if c
                then some (
                    refusal (codes "cpu") (codes "cpu quota must be a finite value greater than 0"))
                else none)
              ≡ some e
            → errors_is e err_resource_limit ≡ true
        go true b c h = is_limit _ refl h
        go false true c h = is_limit _ refl h
        go false false true h = is_limit _ refl h
        go false false false h = absurd (ground arith)

    on_validated-Capped :
        (l : Limits f) (v : Option Error)
        → any_limit f l ≡ true
        → validate_limits l ≡ v
        → Capped l (on_validated l v)
    unfolding on_validated
    on_validated-Capped l (some e) any h = not_enforced e (validate_limits-resource l e h)
    on_validated-Capped l none any h = on_job-Capped l (any_limit f l) (new_job l) any h refl

    -- A group that was asked for with a cap is either one whose caps are all above 0, a quota finite too,
    -- and were given to the job it holds, or an error that matches ErrResourceLimit.
    pub make_group-Capped : (l : Limits f) → any_limit f l ≡ true → Capped l (make_group l)
    unfolding make_group
    make_group-Capped l any = on_validated-Capped l (validate_limits l) any refl
