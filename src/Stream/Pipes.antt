-- ===== src/Stream/Pipes.antt =====
-- stream.go: the pipes of a process's output, and what drains them. A reader is a handle.
pub mod Shut
use processkit_go.Prelude.{
  arith, ℤ, ℕ, suc, ◌+◌, ◌<◌, ◌≤◌, Bool, true, false, ◌||◌, not, Option, none, some, List, [],
  Bytes, if◌then◌else◌, ◌≡◌, ◌≢◌, refl,
}
use processkit_go.Errors.{Error, Fallible, ok, err}
use processkit_go.Stream.{StartConfig, wants_stdout, wants_stderr, drain_lines}

-- The readers, each nil or open.
pub record Pipes : Type 0 where
  pub stdout_r : Option ℤ
  pub stderr_r : Option ℤ

abbrev pub no_pipes : Pipes
no_pipes = record { stdout_r = none; stderr_r = none }

-- `StdoutPipe` and `StderrPipe` of os/exec, and `Close` of a reader.
pub record PipeOps (W : Type 0) : Type 0 where
  pub stdout_pipe : W → Fallible ℤ × W
  pub stderr_pipe : W → Fallible ℤ × W
  pub close_reader : ℤ → W → W

module _ {W : Type 0} (ops : PipeOps W) where
  unfoldable pub close_pipe : Option ℤ → W → W
  close_pipe none w = w
  close_pipe (some r) w = ops.close_reader r w

  -- `closePipes`.
  unfoldable pub close_pipes : Pipes → W → W
  unfolding close_pipe
  close_pipes p w = close_pipe p.stderr_r (close_pipe p.stdout_r w)

  -- After `StderrPipe`.
  unfoldable pub on_stderr : Option ℤ → Fallible ℤ × W → Option Error × Pipes × W
  unfolding close_pipes
  on_stderr out (err e, w) =
      (some e, no_pipes, close_pipes (record { stdout_r = out; stderr_r = none }) w)
  on_stderr out (ok r, w) = (none, record { stdout_r = out; stderr_r = some r }, w)

  unfoldable pub prepare_stderr : StartConfig → Option ℤ → W → Option Error × Pipes × W
  unfolding on_stderr
  prepare_stderr c out w =
      if wants_stderr c
      then on_stderr out (ops.stderr_pipe w)
      else (none, record { stdout_r = out; stderr_r = none }, w)

  -- After `StdoutPipe`.
  unfoldable pub on_stdout : StartConfig → Fallible ℤ × W → Option Error × Pipes × W
  unfolding prepare_stderr
  on_stdout c (err e, w) = (some e, no_pipes, w)
  on_stdout c (ok r, w) = prepare_stderr c (some r) w

  -- `preparePipes`.
  unfoldable pub prepare_pipes : StartConfig → W → Option Error × Pipes × W
  unfolding on_stdout
  prepare_pipes c w =
      if wants_stdout c then on_stdout c (ops.stdout_pipe w) else prepare_stderr c none w

-- What a drain does with a stream: what the tee receives, if there is one, and the lines.
pub record Drained : Type 0 where
  pub teed : Option (List Bytes)
  pub texts : List Bytes

-- `wantsLines`, of a callback and the channel.
unfoldable pub wants_lines : Bool → Bool → Bool
wants_lines has_on_line has_lines = has_on_line || has_lines

-- `drainOne`, of what the pipe gives to its end; the decoder is the function of `WithDecoder`, if set.
unfoldable pub drain_one :
    Bool → Bool → Bool → Option (List Bytes → List Bytes) → ℤ → List Bytes → Drained
unfolding wants_lines
drain_one has_tee has_on_line has_lines decoder max_line_bytes chunks = record {
  teed = if has_tee then some chunks else none;
  texts =
      if not (wants_lines has_on_line has_lines)
      then []
      else drain_lines (elim decoder [ none ↦ chunks | some decode ↦ decode chunks ])
          max_line_bytes;
}

-- `launchDrains`: what is drained of the streams that have a pipe, stdout first.
unfoldable pub launch_drain :
    StartConfig
    → Bool
    → Bool
    → Option (List Bytes → List Bytes)
    → Option (List Bytes)
    → Option Drained
unfolding drain_one
launch_drain c has_tee has_on_line decoder none = none
launch_drain c has_tee has_on_line decoder (some chunks) =
    some (drain_one has_tee has_on_line c.stream_lines decoder c.max_line_bytes chunks)
