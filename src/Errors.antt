-- ===== src/Errors.antt =====
-- The error values of errors.go and `errors.Is` over them.
-- An error type that wraps another has the wrapped error as a `Cause`, which is nil or an error;
-- `sentinel` is a package-level `errors.New` value, `errno` a `syscall.Errno`, `wrapped` an
-- `fmt.Errorf` with `%w`, and `other` any error of another package, by its text.
pub mod Render
pub mod Safe
pub mod Utf8
pub mod Previews
pub mod Texts
use processkit_go.Prelude.{
  ℤ, ℕ, Bool, false, ◌||◌, ◌&&◌, Option, none, some, List, Bytes, ◌==◌, ◌≡◌, refl, ◌⊎◌, inl, inr,
}
use processkit_go.Outcome.{Outcome, Mechanism, has_timed_out}

pub data Sentinel : Type 0 where
  err_cancelled err_timeout err_unsupported err_not_ready err_resource_limit : Sentinel
  err_not_found err_start err_too_few_stages err_group_closed : Sentinel
  err_stream_not_enabled err_cassette_miss : Sentinel
  context_canceled context_deadline_exceeded exec_err_not_found sys_err_unsupported : Sentinel

abbrev pub sentinel_id : Sentinel → ℕ
sentinel_id err_cancelled = 0
sentinel_id err_timeout = 1
sentinel_id err_unsupported = 2
sentinel_id err_not_ready = 3
sentinel_id err_resource_limit = 4
sentinel_id err_not_found = 5
sentinel_id err_start = 6
sentinel_id err_too_few_stages = 7
sentinel_id err_group_closed = 8
sentinel_id err_stream_not_enabled = 9
sentinel_id err_cassette_miss = 10
sentinel_id context_canceled = 11
sentinel_id context_deadline_exceeded = 12
sentinel_id exec_err_not_found = 13
sentinel_id sys_err_unsupported = 14

-- Go compares these values by identity.
abbrev pub same : Sentinel → Sentinel → Bool
same a b = sentinel_id a == sentinel_id b

-- `ctx.Err()` of a context that has ended.
pub data ContextError : Type 0 where
  canceled deadline_exceeded : ContextError

abbrev pub context_sentinel : ContextError → Sentinel
context_sentinel canceled = context_canceled
context_sentinel deadline_exceeded = context_deadline_exceeded

pub record ExitError : Type 0 where
  pub program : Bytes
  pub outcome : Outcome
  pub stdout : Bytes
  pub stderr : Bytes
  pub mechanism : Mechanism

mutual
  pub data Error : Type 0 where
    exit_error : ExitError → Error
    cancel_error : Bytes → Option ContextError → Error
    not_found_error : Bytes → List Bytes → Error
    start_error : Bytes → Error → Error
    not_ready_error : Bytes → Bytes → ℤ → Cause → Error
    resource_limit_error : Bytes → Bytes → Cause → Error
    cassette_miss_error : Bytes → List Bytes → Bytes → Error
    sentinel : Sentinel → Error
    errno : ℕ → Error
    wrapped : Bytes → Error → Error
    other : Bytes → Error

  pub data Cause : Type 0 where
    nil : Cause
    cause : Error → Cause

abbrev pub context_cause_is : Option ContextError → Sentinel → Bool
context_cause_is none target = false
context_cause_is (some c) target = same (context_sentinel c) target

-- `errors.Is`: the error itself, its `Is` method, then what it unwraps to.
unfoldable mutual
  pub errors_is : Error → Sentinel → Bool
  errors_is (exit_error e) target = same err_timeout target && has_timed_out e.outcome
  errors_is (cancel_error p c) target = same err_cancelled target || context_cause_is c target
  errors_is (not_found_error p searched) target = same err_not_found target
  errors_is (start_error p e) target = same err_start target || errors_is e target
  errors_is (not_ready_error p probe t c) target = same err_not_ready target || cause_is c target
  errors_is (resource_limit_error l r c) target =
      same err_resource_limit target || cause_is c target
  errors_is (cassette_miss_error p args dir) target = same err_cassette_miss target
  errors_is (sentinel s) target = same s target
  errors_is (errno n) target = false
  errors_is (wrapped text e) target = errors_is e target
  errors_is (other text) target = false

  pub cause_is : Cause → Sentinel → Bool
  cause_is nil target = false
  cause_is (cause e) target = errors_is e target

-- A function's `(value, error)` result: the error is nil, or the value is not used.
pub data Fallible {ℓ} (A : Type ℓ) : Type ℓ where
  ok : A → Fallible A
  err : Error → Fallible A

infixl 5 ◌>>=◌
abbrev pub ◌>>=◌ {ℓ κ} : {A : Type ℓ} {B : Type κ} → Fallible A → (A → Fallible B) → Fallible B
ok a >>= f = f a
err e >>= f = err e

pub Fallible-cases {ℓ} :
    {A : Type ℓ} (r : Fallible A) → ((a : A) × (r ≡ ok a)) ⊎ ((e : Error) × (r ≡ err e))
Fallible-cases (ok a) = inl (a, refl)
Fallible-cases (err e) = inr (e, refl)
