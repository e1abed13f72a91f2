-- ===== src/Stream/Pipes/Shut.antt =====
-- stream.go: the readers that `preparePipes` and `closePipes` leave open.
use processkit_go.Prelude.{
  arith, ℤ, Bool, true, false, Option, none, some, if◌then◌else◌, ◌≡◌, ◌⊎◌, inl, inr, subst,
}
use processkit_go.Errors.{Error, Fallible, ok, err}
use processkit_go.Stream.{StartConfig, wants_stdout, wants_stderr}
use processkit_go.Stream.Pipes.{
  Pipes, PipeOps, close_pipe, close_pipes, on_stderr, prepare_stderr, on_stdout, prepare_pipes,
}

-- What os/exec does with readers: a pipe that is made opens the reader that is returned and no other, and
-- after a close the reader is closed, also where it was closed already.
pub record ReaderLaws {W : Type 0} (ops : PipeOps W) (IsOpen : ℤ → W → Bool) : Type 0 where
  pub stdout_opens_one :
      (q : ℤ) (w : W)
      → IsOpen q w ≡ false
      → (IsOpen q (ops.stdout_pipe w).1 ≡ false) ⊎ ((ops.stdout_pipe w).0 ≡ ok q)
  pub stderr_opens_one :
      (q : ℤ) (w : W)
      → IsOpen q w ≡ false
      → (IsOpen q (ops.stderr_pipe w).1 ≡ false) ⊎ ((ops.stderr_pipe w).0 ≡ ok q)
  pub close_shuts : (q : ℤ) (w : W) → IsOpen q (ops.close_reader q w) ≡ false
  pub close_opens_none :
      (q r : ℤ) (w : W) → IsOpen q w ≡ false → IsOpen q (ops.close_reader r w) ≡ false

module _ {W : Type 0} (ops : PipeOps W) (IsOpen : ℤ → W → Bool) (laws : ReaderLaws ops IsOpen)
    (q : ℤ) where
  -- The reader is shut, or one of those held.
  abbrev pub Owned : Pipes → W → Type 0
  Owned pipes w = (IsOpen q w ≡ false) ⊎ ((pipes.stdout_r ≡ some q) ⊎ (pipes.stderr_r ≡ some q))

  close_pipe-Shut :
      (r : Option ℤ) (w : W) → IsOpen q w ≡ false → IsOpen q (close_pipe ops r w) ≡ false
  unfolding close_pipe
  close_pipe-Shut none w shut = shut
  close_pipe-Shut (some r) w shut = laws.close_opens_none q r w shut

  close_pipe-held : (r : Option ℤ) (w : W) → r ≡ some q → IsOpen q (close_pipe ops r w) ≡ false
  unfolding close_pipe
  close_pipe-held none w h = absurd (ground arith)
  close_pipe-held (some r) w h =
      let same : q ≡ r = ground arith in
      subst (λ x. IsOpen q (ops.close_reader x w) ≡ false) same (laws.close_shuts q w)

  pub close_pipes-Shut :
      (pipes : Pipes) (w : W) → Owned pipes w → IsOpen q (close_pipes ops pipes w) ≡ false
  unfolding close_pipes
  close_pipes-Shut pipes w (inl shut) =
      close_pipe-Shut pipes.stderr_r _ (close_pipe-Shut pipes.stdout_r w shut)
  close_pipes-Shut pipes w (inr (inl out)) =
      close_pipe-Shut pipes.stderr_r _ (close_pipe-held pipes.stdout_r w out)
  close_pipes-Shut pipes w (inr (inr errs)) = close_pipe-held pipes.stderr_r _ errs

  -- What a preparation leaves open it returns.
  abbrev pub Prepared : Option Error × Pipes × W → Type 0
  Prepared (some e, pipes, w) = IsOpen q w ≡ false
  Prepared (none, pipes, w) = Owned pipes w

  abbrev only_out : Option ℤ → Pipes
  only_out out = record { stdout_r = out; stderr_r = none }

  on_stderr-Prepared :
      (out : Option ℤ) (r : Fallible ℤ × W)
      → Owned (only_out out) r.1 ⊎ (r.0 ≡ ok q)
      → Prepared (on_stderr ops out r)
  unfolding on_stderr
  on_stderr-Prepared out (err e, w) (inl owned) = close_pipes-Shut (only_out out) w owned
  on_stderr-Prepared out (err e, w) (inr made) = absurd (ground arith)
  on_stderr-Prepared out (ok r, w) (inl (inl shut)) = inl shut
  on_stderr-Prepared out (ok r, w) (inl (inr (inl held))) = inr (inl held)
  on_stderr-Prepared out (ok r, w) (inl (inr (inr held))) = absurd (ground arith)
  on_stderr-Prepared out (ok r, w) (inr made) = inr (inr (ground arith))

  stderr_pipe-Owned :
      (out : Option ℤ) (w : W)
      → Owned (only_out out) w
      → Owned (only_out out) (ops.stderr_pipe w).1 ⊎ ((ops.stderr_pipe w).0 ≡ ok q)
  stderr_pipe-Owned out w (inl shut) = elim (laws.stderr_opens_one q w shut) [
    | inl still ↦ inl (inl still)
    | inr made ↦ inr made
  ]
  stderr_pipe-Owned out w (inr held) = inl (inr held)

  prepare_stderr-Prepared :
      (c : StartConfig) (out : Option ℤ) (w : W)
      → Owned (only_out out) w
      → Prepared (prepare_stderr ops c out w)
  unfolding prepare_stderr
  prepare_stderr-Prepared c out w owned =
      go (wants_stderr c)
        (on_stderr-Prepared out (ops.stderr_pipe w) (stderr_pipe-Owned out w owned))
    where
      go :
          (b : Bool)
          → Prepared (on_stderr ops out (ops.stderr_pipe w))
          → Prepared (
              if◌then◌else◌ {A = Option Error × Pipes × W} b
                (on_stderr ops out (ops.stderr_pipe w))
                (none, only_out out, w))
      go true piped = piped
      go false piped = owned

  on_stdout-Prepared :
      (c : StartConfig) (r : Fallible ℤ × W)
      → (IsOpen q r.1 ≡ false) ⊎ (r.0 ≡ ok q)
      → Prepared (on_stdout ops c r)
  unfolding on_stdout
  on_stdout-Prepared c (err e, w) (inl shut) = shut
  on_stdout-Prepared c (err e, w) (inr made) = absurd (ground arith)
  on_stdout-Prepared c (ok r, w) (inl shut) = prepare_stderr-Prepared c (some r) w (inl shut)
  on_stdout-Prepared c (ok r, w) (inr made) =
      prepare_stderr-Prepared c (some r) w (inr (inl (ground arith)))

  pub prepare_pipes-Prepared :
      (c : StartConfig) (w : W) → IsOpen q w ≡ false → Prepared (prepare_pipes ops c w)
  unfolding prepare_pipes
  prepare_pipes-Prepared c w shut =
      go (wants_stdout c)
        (on_stdout-Prepared c (ops.stdout_pipe w) (laws.stdout_opens_one q w shut))
        (prepare_stderr-Prepared c none w (inl shut))
    where
      go :
          (b : Bool)
          → Prepared (on_stdout ops c (ops.stdout_pipe w))
          → Prepared (prepare_stderr ops c none w)
          → Prepared
              (if b then on_stdout ops c (ops.stdout_pipe w) else prepare_stderr ops c none w)
      go true piped unpiped = piped
      go false piped unpiped = unpiped
