-- ===== src/Group.antt =====
-- group.go and signal.go: a shared container of processes. `Start`, `Adopt` and the first part of
-- `Close` run under the group's lock, so each is one step; the second part of `Close` runs without it.
-- A snapshot of `procs`, which is only ever appended to, is its length.
pub mod Schedule
pub mod Orphans
pub mod Close
pub mod Registration
pub mod Limits
pub mod Shutdown
pub mod Signals
pub mod Piped
use processkit_go.Prelude.{
  ℤ, pos, ℕ, Bool, true, false, Option, none, some, is_some, List, [], ◌∷◌, ◌++◌, Bytes, codes,
  if◌then◌else◌, length,
}
use processkit_go.Outcome.{Mechanism}
use processkit_go.Errors.{
  Error, start_error, sentinel, wrapped, other, err_group_closed, err_unsupported,
  sys_err_unsupported, errors_is, Fallible, ok, err,
}
use processkit_go.Result.{Invocation}
use processkit_go.Runner.{start_err_of}
use processkit_go.Log.{LogEvent, child_spawned, child_adopted, group_terminating}
use processkit_go.Stream.{StartConfig}
use processkit_go.Sys.{no_attr, SysProcAttr, JobOps}
use processkit_go.Running.{RunningProcess, pids, stop_first, is_live}

pub data SigKind : Type 0 where
  sig_unset sig_term sig_kill sig_int sig_hup sig_quit sig_usr1 sig_usr2 sig_raw : SigKind

pub record Signal : Type 0 where
  pub name : Bytes
  pub kind : SigKind
  pub raw : ℤ

abbrev pub is_kill : Signal → Bool
is_kill s = elim s.kind [ sig_kill ↦ true | _ ↦ false ]

abbrev pub is_unset : Signal → Bool
is_unset s = elim s.kind [ sig_unset ↦ true | _ ↦ false ]

pub record Group (J : Type 0) : Type 0 where
  pub job : J
  pub mechanism : Mechanism
  pub procs : List RunningProcess
  pub closed : Bool

-- os/exec, the pipes of `preparePipes`, the signal numbers of package syscall and fmt.
pub record Host (W : Type 0) : Type 0 where
  pub prepare_pipes : StartConfig → W → Option Error × W
  pub close_pipes : W → W
  pub spawn : SysProcAttr → Invocation → W → Fallible ℤ × W
  pub kill_process : ℤ → W → W
  pub wait_process : ℤ → W → W
  pub path_dirs : List Bytes
  pub signal_number : SigKind → ℤ
  pub show_int : ℤ → Bytes
  -- The group's logger.
  pub log_event : LogEvent → W → W

unfoldable pub new_group : {J : Type 0} → Mechanism → J → Group J
new_group mechanism job = record { job = job; mechanism = mechanism; procs = []; closed = false }

-- `mapUnsupported`.
unfoldable pub map_unsupported : Option Error → Bytes → Option Error
map_unsupported none op = none
map_unsupported (some e) op =
    if errors_is e sys_err_unsupported
    then some (
        wrapped (codes "processkit: " ++ op ++ codes " is not supported on this platform")
          (sentinel err_unsupported))
    else some e

-- `Group.Processes`.
unfoldable pub live_of : List RunningProcess → List RunningProcess
live_of [] = []
live_of (p ∷ ps) = let rest = live_of ps in if is_live p then p ∷ rest else rest

-- The refusal of the zero `Signal`, by the text before its advice.
abbrev pub zero_signal : Error
zero_signal = other (codes "processkit: Group.Signal called with the zero Signal")

-- The handle that `Start` registers.
abbrev pub handle_of : Invocation → StartConfig → Mechanism → ℤ → RunningProcess
handle_of inv config mechanism pid = record {
  pid = pid;
  program = inv.program;
  mechanism = mechanism;
  stopped = false;
  has_lines = config.stream_lines;
  lines_closed = false;
  finished = none;
}

module _ {J W : Type 0} (ops : JobOps J W) (host : Host W) where
  abbrev pub Started : Type 0
  Started = Fallible RunningProcess × Group J × W

  -- After `job.Assign`: the registration of the handle, or the end of the child.
  unfoldable pub on_assigned :
      Invocation → StartConfig → ℤ → Group J → Option Error × J × W → Started
  on_assigned inv config pid g (none, job, w) =
      let p = handle_of inv config g.mechanism pid in
      (
        ok p,
        record g { job = job; procs = g.procs ++ p ∷ [] },
        host.log_event (child_spawned inv.program pid g.mechanism) w,
      )
  on_assigned inv config pid g (some e, job, w) = (
    err (start_error inv.program e),
    record g { job = job },
    host.close_pipes (host.wait_process pid (host.kill_process pid w)),
  )

  -- After `ecmd.Start`.
  unfoldable pub on_spawned : Invocation → StartConfig → Group J → Fallible ℤ × W → Started
  on_spawned inv config g (err e, w) =
      (err (start_err_of inv.program host.path_dirs e), g, host.close_pipes w)
  on_spawned inv config g (ok pid, w) = on_assigned inv config pid g (ops.assign (some pid) g.job w)

  -- After `preparePipes`.
  unfoldable pub on_piped :
      Invocation → StartConfig → SysProcAttr → Group J → Option Error × W → Started
  on_piped inv config attr g (some e, w) = (err (start_error inv.program e), g, w)
  on_piped inv config attr g (none, w) = on_spawned inv config g (host.spawn attr inv w)

  -- After `job.Configure`.
  unfoldable pub on_configured :
      Invocation → StartConfig → Group J → W → Fallible SysProcAttr → Started
  on_configured inv config g w (err e) = (err (start_error inv.program e), g, w)
  on_configured inv config g w (ok attr) = on_piped inv config attr g (host.prepare_pipes config w)

  -- `Group.Start`, with the options resolved.
  unfoldable pub start : Invocation → StartConfig → Group J → W → Started
  start inv config g w =
      if g.closed
      then (err (start_error inv.program (sentinel err_group_closed)), g, w)
      else on_configured inv config g w (ops.configure g.job no_attr)

  -- After `job.Adopt`.
  unfoldable pub on_adopted : ℤ → J → Group J → Option Error → W → Option Error × Group J × W
  on_adopted pid job g (some e) w = (some e, record g { job = job }, w)
  on_adopted pid job g none w =
      (none, record g { job = job }, host.log_event (child_adopted pid g.mechanism) w)

  -- `Group.Adopt`.
  unfoldable pub adopt : Option ℤ → Group J → W → Option Error × Group J × W
  unfolding on_adopted
  adopt none g w = (some (other (codes "processkit: Adopt(nil)")), g, w)
  adopt (some pid) g w =
      let (failed, job, w') = ops.adopt pid g.job w in
      if g.closed
      then (some (sentinel err_group_closed), g, w)
      else on_adopted pid job g (map_unsupported failed (codes "adopt")) w'

  -- `Signal.number` and `Signal.String`.
  unfoldable pub number : Signal → ℤ
  number s = elim s.kind [ sig_raw ↦ s.raw | sig_unset ↦ s.raw | _ ↦ host.signal_number s.kind ]

  unfoldable pub signal_text : Signal → Bytes
  signal_text s = elim s.kind [
    | sig_raw ↦ codes "signal " ++ host.show_int s.raw
    | _ ↦ codes "SIG" ++ s.name
  ]

  -- `Group.Signal`.
  unfoldable pub signal : Signal → Group J → W → Option Error × W
  unfolding number signal_text
  signal s g w =
      let (failed, w') = ops.signal (number s) g.job w in
      if is_unset s
      then (some zero_signal, w)
      else if is_kill s
      then ops.kill g.job w
      else (map_unsupported failed (codes "signal " ++ signal_text s), w')

  unfoldable pub suspend : Group J → W → Option Error × W
  suspend g w =
      let (failed, w') = ops.suspend g.job w in (map_unsupported failed (codes "suspend"), w')

  unfoldable pub resume : Group J → W → Option Error × W
  resume g w =
      let (failed, w') = ops.resume g.job w in (map_unsupported failed (codes "resume"), w')

  -- The locked part of `Close`: the snapshot, unless the group is closed already.
  unfoldable pub mark_closed : Group J → Option ℕ × Group J
  mark_closed g =
      if g.closed then (none, g) else (some (length g.procs), record g { closed = true })

  -- The rest of `Close`.
  unfoldable pub tear_down : ℕ → Group J → W → Option Error × Group J × W
  tear_down snapshot g w =
      let (kill_err, w₁) = ops.kill g.job (host.log_event (group_terminating g.mechanism) w) in
      let (close_err, w₂) = ops.close g.job w₁ in
      (
        elim kill_err [ some e ↦ some e | none ↦ close_err ],
        record g { procs = stop_first snapshot g.procs },
        w₂,
      )
