-- ===== src/Sys/Cgroup.antt =====
-- internal/sys/job_linux.go: the containment backend that places processes in a cgroup v2 directory.
pub mod Creation
pub mod Caps
use processkit_go.Prelude.{
  ℤ, pos, ltb_ℤ, ℕ, zero, suc, Bool, true, false, Option, none, some, List, [], ◌∷◌, ◌++◌, Bytes,
  codes, if◌then◌else◌,
}
use processkit_go.Errors.{Error, errno, other, wrapped, Fallible, ok, err}
use processkit_go.Text.{split_lines, trim_space, parse_int}
use processkit_go.Sys.{SysProcAttr, JobOps, Kernel}
use processkit_go.Sys.ProcessGroup.{keep_first, deliver_all}

-- The control files of a cgroup directory.
pub data ControlFile : Type 0 where
  cgroup_procs cgroup_freeze cgroup_kill subtree_control : ControlFile
  memory_max pids_max cpu_max : ControlFile

-- The cgroup file system, system calls and timers.
pub record CgroupFs (W : Type 0) : Type 0 where
  pub kernel : Kernel W
  -- `os.OpenFile` of a control file of a directory, write-only, and the calls on the open file.
  pub open_file : Bytes → ControlFile → W → Fallible ℤ × W
  pub write_file : ℤ → Bytes → W → Option Error × W
  pub close_file : ℤ → W → Option Error × W
  -- The reads of cgroup.procs and of cgroup.subtree_control (empty on an error).
  pub read_procs : Bytes → W → Option Bytes × W
  pub read_enabled : Bytes → W → Bytes × W
  pub sleep : ℤ → W → W
  pub mkdir : Bytes → W → Option Error × W
  pub remove : Bytes → W → W
  pub open_dir : Bytes → W → Fallible ℤ × W
  pub close_dir : ℤ → W → W
  -- `cgroupCounter.Add(1)`.
  pub next_count : W → ℕ × W
  -- `errors.Is` with syscall.ESRCH, os.ErrNotExist and os.ErrExist.
  pub is_esrch : Error → Bool
  pub is_not_exist : Error → Bool
  pub is_exist : Error → Bool
  -- `strconv.Itoa`, which also is `strconv.FormatUint` on numbers.
  pub itoa : ℤ → Bytes

pub record CgroupJob : Type 0 where
  pub path : Bytes
  pub dir : Option ℤ
  pub dir_fd : ℤ

unfoldable pub configure : CgroupJob → SysProcAttr → Fallible SysProcAttr
configure j attr = ok (record attr { cgroup_fd = some j.dir_fd })

-- The loop of `members` over the lines of cgroup.procs.
unfoldable pub positive_pid : Option ℤ → List ℤ → List ℤ
positive_pid none later = later
positive_pid (some pid) later = if ltb_ℤ (pos 0) pid then pid ∷ later else later

unfoldable pub pids_in : List Bytes → List ℤ
unfolding positive_pid
pids_in [] = []
pids_in (line ∷ lines) = positive_pid (parse_int (trim_space line)) (pids_in lines)

unfoldable pub listed : Option Bytes → List ℤ
unfolding pids_in
listed none = []
listed (some text) = pids_in (split_lines text)

abbrev pub is_empty : List ℤ → Bool
is_empty [] = true
is_empty (pid ∷ pids) = false

-- Two milliseconds.
abbrev pub pause : ℤ
pause = pos 2000000

module _ {W : Type 0} (fs : CgroupFs W) where
  -- The error of the write, or that of the close.
  abbrev first_of : Option Error → Option Error → Option Error
  first_of none e = e
  first_of (some e) later = some e

  unfoldable pub on_file : Bytes → Fallible ℤ × W → Option Error × W
  on_file content (err e, w) = (some e, w)
  on_file content (ok file, w) =
      let (failed, w₁) = fs.write_file file content w in
      let (unclosed, w₂) = fs.close_file file w₁ in (first_of failed unclosed, w₂)

  -- `writeCgroup`.
  unfoldable pub write_cgroup : Bytes → ControlFile → Bytes → W → Option Error × W
  unfolding on_file
  write_cgroup path file content w = on_file content (fs.open_file path file w)

  unfoldable pub members : CgroupJob → W → List ℤ × W
  members j w = let (text, w') = fs.read_procs j.path w in (listed text, w')

  unfoldable pub assign : Option ℤ → CgroupJob → W → Option Error × CgroupJob × W
  assign none j w = (some (other (codes "sys: Assign called before the process started")), j, w)
  assign (some pid) j w = (none, j, w)

  abbrev placed : ℤ → Option Error → Option Error
  placed pid none = none
  placed pid (some e) =
      if fs.is_esrch e
      then none
      else some (wrapped (codes "sys: placing pid " ++ (fs.itoa pid ++ codes " into the cgroup")) e)

  -- `Adopt`, which is `contain`.
  unfoldable pub adopt : ℤ → CgroupJob → W → Option Error × CgroupJob × W
  adopt pid j w =
      let (failed, w') = write_cgroup j.path cgroup_procs (fs.itoa pid) w in
      (placed pid failed, j, w')

  -- `Signal`: to each member that is listed.
  unfoldable pub signal : ℤ → CgroupJob → W → Option Error × W
  signal sig j w = let (pids, w') = members j w in deliver_all fs.kernel pids sig none w'

  -- `freeze`, after the write: only where the file is absent are the members signalled.
  unfoldable pub on_frozen : ℤ → CgroupJob → Option Error × W → Option Error × W
  on_frozen sig j (none, w) = (none, w)
  on_frozen sig j (some e, w) = if fs.is_not_exist e then signal sig j w else (some e, w)

  unfoldable pub suspend : CgroupJob → W → Option Error × W
  suspend j w = on_frozen fs.kernel.sigstop j (write_cgroup j.path cgroup_freeze (codes "1") w)

  unfoldable pub resume : CgroupJob → W → Option Error × W
  resume j w = on_frozen fs.kernel.sigcont j (write_cgroup j.path cgroup_freeze (codes "0") w)

  -- A round of SIGKILLs, whose errors are dropped.
  unfoldable pub kill_each : List ℤ → W → W
  kill_each [] w = w
  kill_each (pid ∷ pids) w = kill_each pids (fs.kernel.kill pid fs.kernel.sigkill w).1

  -- The bounded sweep of `Kill`, for the rounds left.
  unfoldable pub sweep : ℕ → CgroupJob → W → W
  sweep zero j w = w
  sweep (suc rounds) j w = elim (is_empty (members j w).0) [
    | true ↦ (members j w).1
    | false ↦ sweep rounds j (fs.sleep pause (kill_each (members j w).0 (members j w).1))
  ]

  abbrev pub not_drained : Error
  not_drained =
      other
        (codes "sys: cgroup did not drain after the bounded SIGKILL sweep (kernel < 5.14 fallback)")

  abbrev pub drained : List ℤ → Option Error
  drained [] = none
  drained (pid ∷ pids) = some not_drained

  -- The world after the freeze, the sweep and the thaw.
  unfoldable pub swept : CgroupJob → W → W
  swept j w =
      let w₁ = (write_cgroup j.path cgroup_freeze (codes "1") w).1 in
      (write_cgroup j.path cgroup_freeze (codes "0") (sweep 50 j w₁)).1

  -- `Kill`, after the write to cgroup.kill.
  unfoldable pub on_killed : CgroupJob → Option Error × W → Option Error × W
  on_killed j (none, w) = (none, w)
  on_killed j (some e, w) = let (pids, w') = members j (swept j w) in (drained pids, w')

  unfoldable pub kill : CgroupJob → W → Option Error × W
  unfolding on_killed
  kill j w = on_killed j (write_cgroup j.path cgroup_kill (codes "1") w)

  -- The drain of `Close`, for the rounds left.
  unfoldable pub drain : ℕ → CgroupJob → W → W
  drain zero j w = w
  drain (suc rounds) j w = elim (is_empty (members j w).0) [
    | true ↦ (members j w).1
    | false ↦ drain rounds j (fs.sleep pause (members j w).1)
  ]

  unfoldable pub close_handle : Option ℤ → W → W
  close_handle none w = w
  close_handle (some fd) w = fs.close_dir fd w

  unfoldable pub close : CgroupJob → W → Option Error × W
  close j w = (none, fs.remove j.path (close_handle j.dir (drain 50 j w)))

  abbrev pub cgroup_ops : JobOps CgroupJob W
  cgroup_ops = record {
    configure = configure;
    assign = assign;
    adopt = adopt;
    signal = signal;
    suspend = suspend;
    resume = resume;
    kill = kill;
    close = close;
  }
