-- ===== src/Transient.antt =====
-- classify.go, classify_unix.go and classify_windows.go: the errors that a retry may cure.
use processkit_go.Prelude.{ℕ, Bool, false, Option, none, some, [], ◌∷◌, ◌==◌, any}
use processkit_go.Errors.{
  Error, exit_error, cancel_error, not_found_error, start_error, not_ready_error,
  resource_limit_error, cassette_miss_error, sentinel, errno, wrapped, other, Cause, nil, cause,
}

-- The numbers of package syscall.
pub record Errnos : Type 0 where
  pub eintr : ℕ
  pub eagain : ℕ
  pub etxtbsy : ℕ
  pub ebusy : ℕ

-- `errors.As` with a `syscall.Errno`: the first one in the chain of what an error wraps.
unfoldable mutual
  pub errno_in : Error → Option ℕ
  errno_in (exit_error e) = none
  errno_in (cancel_error program c) = none
  errno_in (not_found_error program searched) = none
  errno_in (start_error program e) = errno_in e
  errno_in (not_ready_error program probe timeout c) = errno_under c
  errno_in (resource_limit_error limit reason c) = errno_under c
  errno_in (cassette_miss_error program args dir) = none
  errno_in (sentinel s) = none
  errno_in (errno n) = some n
  errno_in (wrapped text e) = errno_in e
  errno_in (other text) = none

  pub errno_under : Cause → Option ℕ
  errno_under nil = none
  errno_under (cause e) = errno_in e

-- `isTransientErrno` of the Unix systems, and of Windows: a sharing and a lock violation.
unfoldable pub is_transient_errno_unix : Errnos → ℕ → Bool
is_transient_errno_unix n e = any (λ c. e == c) (n.eintr ∷ n.eagain ∷ n.etxtbsy ∷ n.ebusy ∷ [])

unfoldable pub is_transient_errno_windows : ℕ → Bool
is_transient_errno_windows e = any (λ c. e == c) (32 ∷ 33 ∷ [])

unfoldable pub holds_errno : (ℕ → Bool) → Option ℕ → Bool
holds_errno transient none = false
holds_errno transient (some n) = transient n

-- `IsTransient`.
unfoldable pub is_transient : (ℕ → Bool) → Error → Bool
unfolding holds_errno errno_in
is_transient transient e = holds_errno transient (errno_in e)
