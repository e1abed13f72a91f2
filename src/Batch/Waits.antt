-- ===== src/Batch/Waits.antt =====
-- What `WaitAll` of batch.go can answer.
use processkit_go.Prelude.{Option, none, some, List, [], ◌∷◌, ◌≡◌, refl, subst, ◌↔◌, arith}
use processkit_go.Outcome.{Outcome}
use processkit_go.Errors.{ContextError, Error, Fallible, ok, err}
use processkit_go.Running.{RunningProcess}
use processkit_go.Batch.{ctx_error, outcome_first, Received, exit, ctx_end, wait_all}

-- The answers, by the handles in order: the outcomes of all, or the error of the first whose wait failed,
-- or the context's error where it ended before a process did.
pub data Waited : List RunningProcess → Fallible (List Outcome) → Type 0 where
  all_waited : Waited [] (ok [])
  waited :
      (p : RunningProcess) (ps : List RunningProcess) (o : Outcome) (os : List Outcome)
      → p.finished ≡ some (ok o)
      → Waited ps (ok os)
      → Waited (p ∷ ps) (ok (o ∷ os))
  later_failed :
      (p : RunningProcess) (ps : List RunningProcess) (o : Outcome) (e : Error)
      → p.finished ≡ some (ok o)
      → Waited ps (err e)
      → Waited (p ∷ ps) (err e)
  wait_failed :
      (p : RunningProcess) (ps : List RunningProcess) (e : Error)
      → p.finished ≡ some (err e)
      → Waited (p ∷ ps) (err e)
  context_ended :
      (p : RunningProcess) (ps : List RunningProcess) (c : ContextError)
      → Waited (p ∷ ps) (err (ctx_error c))

none_not_some : {A : Type 0} {a : A} → ¬ (none ≡ some a)
none_not_some h = ground arith

some-injective : {A : Type 0} {a b : A} → some a ≡ some b → a ≡ b
some-injective e = ground arith

-- `h` says what the answer is.
answered :
    {procs : List RunningProcess} {a r : Fallible (List Outcome)}
    → some a ≡ some r
    → Waited procs a
    → Waited procs r
answered {procs} h w = subst (Waited procs) (some-injective h) w

first-Waited :
    (p : RunningProcess) (ps : List RunningProcess) (o : Outcome)
    (later : Option (Fallible (List Outcome))) (r : Fallible (List Outcome))
    → p.finished ≡ some (ok o)
    → ((r' : Fallible (List Outcome)) → later ≡ some r' → Waited ps r')
    → outcome_first o later ≡ some r
    → Waited (p ∷ ps) r
unfolding outcome_first
first-Waited p ps o none r e sound h = absurd (none_not_some h)
first-Waited p ps o (some (err x)) r e sound h =
    answered h (later_failed p ps o x e (sound (err x) refl))
first-Waited p ps o (some (ok os)) r e sound h =
    answered h (waited p ps o os e (sound (ok os) refl))

wait_all_sound :
    (choices : List Received) (procs : List RunningProcess) (r : Fallible (List Outcome))
    → wait_all choices procs ≡ some r
    → Waited procs r
unfolding wait_all
wait_all_sound choices [] r h = answered h all_waited
wait_all_sound [] (p ∷ ps) r h = absurd (none_not_some h)
wait_all_sound (ctx_end c ∷ choices) (p ∷ ps) r h = answered h (context_ended p ps c)
wait_all_sound (exit ∷ choices) (p ∷ ps) r h = go p.finished refl (wait_all_sound choices ps)
  where
    go :
        (f : Option (Fallible Outcome))
        → p.finished ≡ f
        → ((r' : Fallible (List Outcome)) → wait_all choices ps ≡ some r' → Waited ps r')
        → Waited (p ∷ ps) r
    go none e ih = absurd (none_not_some (rw (e, wait_all) at h))
    go (some (err x)) e ih = answered (rw (e, wait_all) at h) (wait_failed p ps x e)
    go (some (ok o)) e ih = first-Waited p ps o _ r e ih (rw (e, wait_all) at h)

wait_all_complete :
    (procs : List RunningProcess) (r : Fallible (List Outcome))
    → Waited procs r
    → (choices : List Received) × (wait_all choices procs ≡ some r)
unfolding wait_all outcome_first
wait_all_complete _ _ all_waited = ([], refl)
wait_all_complete _ _ (waited p ps o os e w) =
    let (choices, h) = wait_all_complete ps (ok os) w in
    (exit ∷ choices, rw (e, wait_all, h, outcome_first) refl)
wait_all_complete _ _ (later_failed p ps o x e w) =
    let (choices, h) = wait_all_complete ps (err x) w in
    (exit ∷ choices, rw (e, wait_all, h, outcome_first) refl)
wait_all_complete _ _ (wait_failed p ps x e) = (exit ∷ [], rw (e, wait_all) refl)
wait_all_complete _ _ (context_ended p ps c) = (ctx_end c ∷ [], refl)

-- `WaitAll` can answer just this, by what its selects receive: the outcomes of all processes in the order
-- of the handles; the error of a process whose wait failed, where every process before it had exited
-- without one; or the context's error in place of a process, where those before it had so exited.
pub wait_all-Waited :
    (procs : List RunningProcess) (r : Fallible (List Outcome))
    → ((choices : List Received) × (wait_all choices procs ≡ some r)) ↔ Waited procs r
wait_all-Waited procs r = (λ c. wait_all_sound c.0 procs r c.1, wait_all_complete procs r)
