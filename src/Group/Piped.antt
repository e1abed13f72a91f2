-- ===== src/Group/Piped.antt =====
-- group.go with stream.go: a start with the pipes of its configuration. The world holds, beside that of
-- the host and the job, the readers that `preparePipes` returned, which are local variables of `Start`.
use processkit_go.Prelude.{ℤ, Bool, true, false, Option, none, some, ◌≡◌, if◌then◌else◌, inl, inr}
use processkit_go.Errors.{Error, Fallible, ok, err}
use processkit_go.Result.{Invocation}
use processkit_go.Stream.{StartConfig}
use processkit_go.Stream.Pipes.{PipeOps, Pipes, no_pipes, prepare_pipes, close_pipes}
use processkit_go.Stream.Pipes.Shut.{
  ReaderLaws, Owned, Prepared, close_pipes-Shut, prepare_pipes-Prepared,
}
use processkit_go.Sys.{JobOps, SysProcAttr, no_attr}
use processkit_go.Running.{RunningProcess}
use processkit_go.Group.{
  Group, Host, Started, on_assigned, on_spawned, on_piped, on_configured, start,
}

-- The host whose pipes are those of `preparePipes` and `closePipes`.
unfoldable pub piped_host : {W : Type 0} → PipeOps W → Host W → Host (W × Pipes)
piped_host pipe_ops host = record {
  prepare_pipes =
      λ c v. let (failed, pipes, w) = prepare_pipes pipe_ops c v.0 in (failed, (w, pipes));
  close_pipes = λ v. (close_pipes pipe_ops v.1 v.0, no_pipes);
  spawn = λ attr inv v. (let (pid, w) = host.spawn attr inv v.0 in (pid, (w, v.1)));
  kill_process = λ pid v. (host.kill_process pid v.0, v.1);
  wait_process = λ pid v. (host.wait_process pid v.0, v.1);
  path_dirs = host.path_dirs;
  signal_number = host.signal_number;
  show_int = host.show_int;
  log_event = λ e v. (host.log_event e v.0, v.1);
}

-- The job, which does not see the readers.
unfoldable pub piped_job : {J W : Type 0} → JobOps J W → JobOps J (W × Pipes)
piped_job ops = record {
  configure = ops.configure;
  assign = λ pid j v. (let (e, j', w) = ops.assign pid j v.0 in (e, j', (w, v.1)));
  adopt = λ pid j v. (let (e, j', w) = ops.adopt pid j v.0 in (e, j', (w, v.1)));
  signal = λ sig j v. (let (e, w) = ops.signal sig j v.0 in (e, (w, v.1)));
  suspend = λ j v. (let (e, w) = ops.suspend j v.0 in (e, (w, v.1)));
  resume = λ j v. (let (e, w) = ops.resume j v.0 in (e, (w, v.1)));
  kill = λ j v. (let (e, w) = ops.kill j v.0 in (e, (w, v.1)));
  close = λ j v. (let (e, w) = ops.close j v.0 in (e, (w, v.1)));
}

-- The calls of a start open no reader again; they may close some: a failed Start of os/exec and its Wait
-- close the readers of the command.
pub record StartLaws {J W : Type 0} (ops : JobOps J W) (host : Host W) (IsOpen : ℤ → W → Bool)
    : Type 0 where
  pub spawn_opens_none :
      (q : ℤ) (attr : SysProcAttr) (inv : Invocation) (w : W)
      → IsOpen q w ≡ false
      → IsOpen q (host.spawn attr inv w).1 ≡ false
  pub kill_opens_none :
      (q pid : ℤ) (w : W) → IsOpen q w ≡ false → IsOpen q (host.kill_process pid w) ≡ false
  pub wait_opens_none :
      (q pid : ℤ) (w : W) → IsOpen q w ≡ false → IsOpen q (host.wait_process pid w) ≡ false
  pub assign_opens_none :
      (q : ℤ) (pid : Option ℤ) (j : J) (w : W)
      → IsOpen q w ≡ false
      → IsOpen q (ops.assign pid j w).2 ≡ false

module _ {J W : Type 0} (pipe_ops : PipeOps W) (ops : JobOps J W) (host : Host W)
    (IsOpen : ℤ → W → Bool) (readers : ReaderLaws pipe_ops IsOpen)
    (calls : StartLaws ops host IsOpen) (q : ℤ) where
  abbrev Owns : W × Pipes → Type 0
  Owns v = Owned pipe_ops IsOpen readers q v.1 v.0

  -- The reader is shut where a start failed.
  abbrev pub Closed : Fallible RunningProcess × Group J × (W × Pipes) → Type 0
  Closed (ok p, g, v) = Unit
  Closed (err e, g, v) = IsOpen q v.0 ≡ false

  -- A call that opens no reader leaves what it is given owned.
  still :
      (w w' : W) (pipes : Pipes)
      → (IsOpen q w ≡ false → IsOpen q w' ≡ false)
      → Owns (w, pipes)
      → Owns (w', pipes)
  still w w' pipes keeps (inl shut) = inl (keeps shut)
  still w w' pipes keeps (inr held) = inr held

  on_assigned-Closed :
      (inv : Invocation) (config : StartConfig) (pid : ℤ) (g : Group J)
      (r : Option Error × J × (W × Pipes))
      → Owns r.2
      → Closed (on_assigned (piped_job ops) (piped_host pipe_ops host) inv config pid g r)
  unfolding on_assigned piped_host
  on_assigned-Closed inv config pid g (none, job, v) owns = tt
  on_assigned-Closed inv config pid g (some e, job, v) owns =
      close_pipes-Shut pipe_ops IsOpen readers q v.1 _ (
        still (host.kill_process pid v.0) _ v.1 (calls.wait_opens_none q pid _)
          (still v.0 _ v.1 (calls.kill_opens_none q pid v.0) owns))

  on_spawned-Closed :
      (inv : Invocation) (config : StartConfig) (g : Group J) (r : Fallible ℤ × (W × Pipes))
      → Owns r.1
      → Closed (on_spawned (piped_job ops) (piped_host pipe_ops host) inv config g r)
  unfolding on_spawned piped_host piped_job
  on_spawned-Closed inv config g (err e, v) owns =
      close_pipes-Shut pipe_ops IsOpen readers q v.1 v.0 owns
  on_spawned-Closed inv config g (ok pid, v) owns =
      on_assigned-Closed inv config pid g _
        (still v.0 _ v.1 (calls.assign_opens_none q (some pid) g.job v.0) owns)

  on_piped-Closed :
      (inv : Invocation) (config : StartConfig) (attr : SysProcAttr) (g : Group J)
      (r : Option Error × Pipes × W)
      → Prepared pipe_ops IsOpen readers q r
      → Closed
          (on_piped (piped_job ops) (piped_host pipe_ops host) inv config attr g (r.0, (r.2, r.1)))
  unfolding on_piped piped_host
  on_piped-Closed inv config attr g (some e, pipes, w) shut = shut
  on_piped-Closed inv config attr g (none, pipes, w) owns =
      on_spawned-Closed inv config g _ (still w _ pipes (calls.spawn_opens_none q attr inv w) owns)

  on_configured-Closed :
      (inv : Invocation) (config : StartConfig) (g : Group J) (v : W × Pipes)
      (r : Fallible SysProcAttr)
      → IsOpen q v.0 ≡ false
      → Closed (on_configured (piped_job ops) (piped_host pipe_ops host) inv config g v r)
  unfolding on_configured piped_host
  on_configured-Closed inv config g v (err e) shut = shut
  on_configured-Closed inv config g v (ok attr) shut =
      on_piped-Closed inv config attr g _
        (prepare_pipes-Prepared pipe_ops IsOpen readers q config v.0 shut)

  -- A start that fails, at whatever step, leaves no reader open that was not open before, whether the
  -- calls of os/exec have closed it already or not: a pipe that is made opens the one reader that is
  -- returned, a reader is closed after its close, and neither a close nor the calls that spawn, assign,
  -- kill and wait for the child open one again.
  pub start-Closed :
      (inv : Invocation) (config : StartConfig) (g : Group J) (v : W × Pipes)
      → IsOpen q v.0 ≡ false
      → Closed (start (piped_job ops) (piped_host pipe_ops host) inv config g v)
  unfolding start
  start-Closed inv config g v shut =
      go _ g.closed
        (on_configured-Closed inv config g v ((piped_job ops).configure g.job no_attr) shut)
    where
      go :
          (refused : Error) (b : Bool)
          → Closed (
              on_configured
                (piped_job ops)
                (piped_host pipe_ops host)
                inv
                config
                g
                v
                ((piped_job ops).configure g.job no_attr))
          → Closed (
              if◌then◌else◌ {A = Started (piped_job ops) (piped_host pipe_ops host)} b
                (err refused, g, v)
                (on_configured
                  (piped_job ops)
                  (piped_host pipe_ops host)
                  inv
                  config
                  g
                  v
                  ((piped_job ops).configure g.job no_attr)))
      go refused true done = shut
      go refused false done = done
