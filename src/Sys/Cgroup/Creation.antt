-- ===== src/Sys/Cgroup/Creation.antt =====
-- internal/sys/job_linux.go: the creation of a cgroup with its caps, and the choice of a backend.
use processkit_go.Prelude.{
  ℤ, pos, eqb_ℤ, ltb_ℤ, leb_ℤ, ℕ, zero, suc, Bool, true, false, not, ◌&&◌, ◌||◌, Option, none, some,
  List, [], ◌∷◌, ◌++◌, Bytes, codes, if◌then◌else◌, any, bytes_eq,
}
use processkit_go.Errors.{Error, other, wrapped, Fallible, ok, err}
use processkit_go.Outcome.{Mechanism, mechanism_process_group, mechanism_cgroup_v2}
use processkit_go.Floats.{Floats}
use processkit_go.Text.{split_lines, trim_space, cut_prefix, fields, join}
use processkit_go.Sys.Limits.{Limits, any_limit}
use processkit_go.Sys.ProcessGroup.{PgroupJob, new_pgroup_job}
use processkit_go.Sys.Cgroup.{
  write_cgroup, ControlFile, subtree_control, memory_max, pids_max, cpu_max, CgroupFs, CgroupJob,
}

-- What the process reads of its host once: whether cgroup v2 is mounted, the two numbers that
-- `fmt.Sscanf` reads from the kernel's release, /proc/self/cgroup, and the parts of a new name.
pub record CgroupHost : Type 0 where
  pub mounted : Bool
  pub release : Option (ℤ × ℤ)
  pub self_cgroup : Fallible Bytes
  pub getpid : ℕ
  pub salt : Bytes
  -- `filepath.Join`.
  pub path_join : Bytes → Bytes → Bytes

unfoldable pub kernel_at_least : Option (ℤ × ℤ) → ℤ → ℤ → Bool
kernel_at_least none major minor = false
kernel_at_least (some (maj, min)) major minor =
    ltb_ℤ major maj || (eqb_ℤ maj major && leb_ℤ minor min)

-- The path after "0::" on the first line that has it, or "/".
unfoldable pub rel_in : List Bytes → Bytes
rel_in [] = codes "/"
rel_in (line ∷ lines) = elim (cut_prefix (codes "0::") line) [
  | some rel ↦ trim_space rel
  | none ↦ rel_in lines
]

unfoldable pub self_cgroup_rel : Fallible Bytes → Fallible Bytes
unfolding rel_in
self_cgroup_rel (err e) = err e
self_cgroup_rel (ok text) = ok (rel_in (split_lines text))

-- `strings.TrimPrefix(rel, "/")`.
unfoldable pub trim_slash : Bytes → Bytes
trim_slash rel = elim (cut_prefix (codes "/") rel) [ some rest ↦ rest | none ↦ rel ]

-- `controllersToEnable`: those needed that are not yet enabled, in order.
unfoldable pub not_enabled : List Bytes → List Bytes → List Bytes
not_enabled [] already = []
not_enabled (c ∷ needed) already =
    let later = not_enabled needed already in
    if any (λ d. bytes_eq d c) already then later else c ∷ later

unfoldable pub controllers_to_enable : List Bytes → Bytes → List Bytes
unfolding not_enabled
controllers_to_enable needed enabled = not_enabled needed (fields enabled)

abbrev pub prepend_if : {A : Type 0} → Bool → A → List A → List A
prepend_if true a rest = a ∷ rest
prepend_if false a rest = rest

module _ (f : Floats) where
  -- The quota in microseconds of a period of 100000, within 1 and 2 ^ 62.
  abbrev pub clamp_quota : f.Float → f.Float
  clamp_quota q =
      let floored = if f.above f.one q then f.one else q in
      if f.above floored (f.of_int (pos 4611686018427387904))
      then f.of_int (pos 4611686018427387904)
      else floored

  -- `cpuMaxValue`.
  unfoldable pub cpu_max_value : (ℤ → Bytes) → f.Float → Bytes
  cpu_max_value itoa cores =
      itoa (f.to_int (clamp_quota (f.round (f.mul cores (f.of_int (pos 100000))))))
      ++ codes " 100000"

  unfoldable pub needed_of : Limits f → List Bytes
  needed_of l =
      prepend_if l.has_memory_max (codes "memory") (
        prepend_if l.has_max_processes (codes "pids") (prepend_if l.has_cpu_quota (codes "cpu") []))

  -- The caps that are asked for, as the files and the texts to write.
  unfoldable pub cap_writes : (ℤ → Bytes) → Limits f → List (ControlFile × Bytes)
  cap_writes itoa l =
      prepend_if l.has_memory_max (memory_max, itoa (pos l.memory_max))
        (prepend_if l.has_max_processes (pids_max, itoa (pos l.max_processes))
          (prepend_if l.has_cpu_quota (cpu_max, cpu_max_value itoa l.cpu_quota) []))

  -- A backend of this platform.
  pub data LinuxJob : Type 0 where
    cgroup : CgroupJob → LinuxJob
    process_group : PgroupJob → LinuxJob

  module _ {W : Type 0} (fs : CgroupFs W) (host : CgroupHost) where
    -- `mkdirUniqueCgroup`, for the tries left.
    abbrev pub cgroup_name : ℕ → Bytes
    cgroup_name count =
        codes "processkit-"
        ++ (fs.itoa (pos host.getpid)
            ++ (codes "-" ++ (host.salt ++ (codes "-" ++ fs.itoa (pos count)))))

    unfoldable pub mkdir_unique : ℕ → Bytes → W → Fallible Bytes × W
    mkdir_unique zero parent w =
        (err (other (codes "sys: could not create a unique cgroup directory after retries")), w)
    mkdir_unique (suc tries) parent w =
        let (count, w₁) = fs.next_count w in
        let path = host.path_join parent (cgroup_name count) in
        let (failed, w₂) = fs.mkdir path w₁ in
        elim failed [
          | none ↦ (ok path, w₂)
          | some e ↦ elim (fs.is_exist e) [
            | true ↦ mkdir_unique tries parent w₂
            | false ↦ (err e, w₂)
          ]
        ]

    abbrev enabling : Bytes → Option Error → Option Error
    enabling spec none = none
    enabling spec (some e) =
        some (wrapped (codes "sys: enabling cgroup controllers (" ++ (spec ++ codes ") failed")) e)

    -- The write of the controllers to enable, if there is one.
    unfoldable pub enable : Bytes → List Bytes → W → Option Error × W
    enable parent [] w = (none, w)
    enable parent (c ∷ cs) w =
        let spec = codes "+" ++ join (codes " +") (c ∷ cs) in
        let (failed, w') = write_cgroup fs parent subtree_control spec w in
        (enabling spec failed, w')

    -- The error and the world it left, or what the later writes give.
    unfoldable pub or_else : Option Error → W → Option Error × W → Option Error × W
    or_else none w later = later
    or_else (some e) w later = (some e, w)

    -- The writes of the caps, up to the first that fails.
    unfoldable pub write_caps : Bytes → List (ControlFile × Bytes) → W → Option Error × W
    unfolding or_else
    write_caps path [] w = (none, w)
    write_caps path ((file, content) ∷ rest) w =
        let (failed, w') = write_cgroup fs path file content w in
        or_else failed w' (write_caps path rest w')

    unfoldable pub on_enabled : Bytes → Limits f → Option Error × W → Option Error × W
    on_enabled path l (some e, w) = (some e, w)
    on_enabled path l (none, w) = write_caps path (cap_writes fs.itoa l) w

    unfoldable pub apply_limits : Bytes → Bytes → Limits f → W → Option Error × W
    apply_limits path parent l w =
        let (enabled, w') = fs.read_enabled parent w in
        on_enabled path l (enable parent (controllers_to_enable (needed_of l) enabled) w')

    -- After `os.Open` of the new directory.
    unfoldable pub on_opened : Bytes → Fallible ℤ × W → Fallible CgroupJob × W
    on_opened path (err e, w) = (err e, fs.remove path w)
    on_opened path (ok fd, w) = (ok (record { path = path; dir = some fd; dir_fd = fd }), w)

    unfoldable pub on_limited : Bytes → Option Error × W → Fallible CgroupJob × W
    on_limited path (some e, w) = (err e, fs.remove path w)
    on_limited path (none, w) = on_opened path (fs.open_dir path w)

    unfoldable pub on_made : Bytes → Limits f → Fallible Bytes × W → Fallible CgroupJob × W
    on_made parent l (err e, w) = (err e, w)
    on_made parent l (ok path, w) =
        on_limited path (if any_limit f l then apply_limits path parent l w else (none, w))

    unfoldable pub on_rel : Limits f → Fallible Bytes → W → Fallible CgroupJob × W
    on_rel l (err e) w = (err e, w)
    on_rel l (ok rel) w =
        let parent = host.path_join (codes "/sys/fs/cgroup") (trim_slash rel) in
        on_made parent l (mkdir_unique 32 parent w)

    unfoldable pub create_cgroup : Limits f → W → Fallible CgroupJob × W
    create_cgroup l w =
        if not host.mounted
        then (err (other (codes "sys: cgroup v2 not mounted")), w)
        else if not (kernel_at_least host.release (pos 5) (pos 7))
        then (
          err (other (codes "sys: cgroup placement needs clone3 CLONE_INTO_CGROUP (kernel 5.7+)")),
          w,
        )
        else on_rel l (self_cgroup_rel host.self_cgroup) w

    unfoldable pub on_created : Limits f → Fallible CgroupJob × W → Fallible LinuxJob × W
    on_created l (ok j, w) = (ok (cgroup j), w)
    on_created l (err e, w) =
        if any_limit f l then (err e, w) else (ok (process_group new_pgroup_job), w)

    -- `newJob`.
    unfoldable pub new_job : Limits f → W → Fallible LinuxJob × W
    new_job l w = on_created l (create_cgroup l w)

  -- `Mechanism` of the two backends, through `toMechanism`.
  abbrev pub job_mechanism : LinuxJob → Mechanism
  job_mechanism (cgroup j) = mechanism_cgroup_v2
  job_mechanism (process_group j) = mechanism_process_group
