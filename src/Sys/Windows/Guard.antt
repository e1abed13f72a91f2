-- ===== src/Sys/Windows/Guard.antt =====
-- internal/sys/job_windows.go: a child that `Assign` is given never survives outside the job.
use processkit_go.Prelude.{
  arith, ℤ, ℕ, ◌==◌, Bool, true, false, Option, none, some, ◌≡◌, refl, if◌then◌else◌,
}
use processkit_go.Errors.{Error, Fallible, ok, err}
use processkit_go.Sys.Windows.{
  WinApi, WinJob, Access, to_assign, to_terminate, is_closed, terminate_opened, guard,
  nt_resume_process, on_resumed, on_placed, on_opened, assign,
}

-- What becomes of the child, by the error of the assignment.
abbrev pub Settled :
    {W : Type 0} → (W → Type 0) → (W → Type 0) → (W → Type 0) → Option Error × W → Type 0
Settled Contained Running Ended (none, w) = Contained w × Running w
Settled Contained Running Ended (some e, w) = Ended w

module _ {W : Type 0} (api : WinApi W) (pid : ℤ) (Handle : ℕ → Type 0)
    (Contained Running Ended : W → Type 0)
    (opens : (a : Access) (w : W) (h : ℕ) → (api.open_process a pid w).0 ≡ ok h → Handle h)
    (opens_to_end : (w : W) → (h : ℕ) × ((api.open_process to_terminate pid w).0 ≡ ok h))
    (contains : (job h : ℕ) (w : W)
      → Handle h
      → (api.assign_to_job job h w).0 ≡ none
      → Contained (api.assign_to_job job h w).1)
    (resumes : (h : ℕ) (w : W)
      → Handle h
      → Contained w
      → (api.nt_resume h w).0 ≡ 0
      → Contained (api.nt_resume h w).1 × Running (api.nt_resume h w).1)
    (ends : (h : ℕ) (w : W) → Handle h → Ended (api.terminate_process h w))
    (closing_contains : (h : ℕ) (w : W) → Contained w → Contained (api.close_handle h w).1)
    (closing_runs : (h : ℕ) (w : W) → Running w → Running (api.close_handle h w).1)
    (closing_ends : (h : ℕ) (w : W) → Ended w → Ended (api.close_handle h w).1) where
  guard-Ended : (w : W) → Ended (guard api pid w)
  unfolding guard terminate_opened
  guard-Ended w = go (api.open_process to_terminate pid w) (opens to_terminate w) (opens_to_end w)
    where
      go :
          (r : Fallible ℕ × W)
          → ((h : ℕ) → r.0 ≡ ok h → Handle h)
          → (h : ℕ) × (r.0 ≡ ok h)
          → Ended (terminate_opened api r)
      go (ok h, v) handle known = closing_ends h _ (ends h v (handle h refl))
      go (err e, v) handle known = absurd (ground arith)

  nt_resume_process-Running :
      (h : ℕ) (w : W)
      → Handle h
      → Contained w
      → (nt_resume_process api h w).0 ≡ none
      → Contained (nt_resume_process api h w).1 × Running (nt_resume_process api h w).1
  unfolding nt_resume_process
  nt_resume_process-Running h w handle inside =
      go _ ((api.nt_resume h w).0 == 0) (λ e. ground arith)
    where
      go :
          (x : Error) (b : Bool)
          → (b ≡ true → (api.nt_resume h w).0 ≡ 0)
          → (if◌then◌else◌ {A = Option Error × W} b
              (none, (api.nt_resume h w).1)
              (some x, (api.nt_resume h w).1)).0
            ≡ none
          → Contained
              (if◌then◌else◌ {A = Option Error × W} b
                (none, (api.nt_resume h w).1)
                (some x, (api.nt_resume h w).1)).1
            × Running
                (if◌then◌else◌ {A = Option Error × W} b
                  (none, (api.nt_resume h w).1)
                  (some x, (api.nt_resume h w).1)).1
      go x true zero_status e = resumes h w handle inside (zero_status refl)
      go x false zero_status e = absurd (ground arith)

  on_resumed-Settled :
      (h : ℕ) (r : Option Error × W)
      → Handle h
      → (r.0 ≡ none → Contained r.1 × Running r.1)
      → Settled Contained Running Ended (on_resumed api h r)
  unfolding on_resumed
  on_resumed-Settled h (none, w) handle resumed =
      (closing_contains h w (resumed refl).0, closing_runs h w (resumed refl).1)
  on_resumed-Settled h (some e, w) handle resumed = closing_ends h _ (ends h w handle)

  on_placed-Settled :
      (h : ℕ) (r : Option Error × W)
      → Handle h
      → (r.0 ≡ none → Contained r.1)
      → Settled Contained Running Ended (on_placed api pid h r)
  unfolding on_placed
  on_placed-Settled h (none, w) handle placed =
      on_resumed-Settled h _ handle (nt_resume_process-Running h w handle (placed refl))
  on_placed-Settled h (some e, w) handle placed = guard-Ended _

  on_opened-Settled :
      (j : WinJob) (r : Fallible ℕ × W)
      → ((h : ℕ) → r.0 ≡ ok h → Handle h)
      → Settled Contained Running Ended (on_opened api pid j r)
  unfolding on_opened
  on_opened-Settled j (err e, w) handle = guard-Ended w
  on_opened-Settled j (ok h, w) handle =
      on_placed-Settled h _ (handle h refl) (contains j.handle h w (handle h refl))

  -- An assignment to an open job either succeeds, and the child is contained in the job and resumed, or
  -- fails, and the child has ended: given that a handle opened for the child is the child's, that the
  -- child can be opened to be terminated, that the calls that succeed do what they say, and that closing
  -- a handle changes nothing of the child.
  pub assign-Settled :
      (j : WinJob) (w : W)
      → is_closed api j ≡ false
      → Settled Contained Running Ended (assign api (some pid) j w)
  unfolding assign
  assign-Settled j w open_job =
      go _ _ (is_closed api j) open_job (on_opened-Settled j _ (opens to_assign w))
    where
      go :
          (r : Option Error × W) (x : Error) (b : Bool)
          → b ≡ false
          → Settled Contained Running Ended r
          → Settled Contained Running Ended (if b then (some x, w) else r)
      go r x true e settled = absurd (ground arith)
      go r x false e settled = settled
