-- ===== src/Sys/ProcessGroup.antt =====
-- internal/sys/job_unix.go: the containment backend that tracks POSIX process groups.
pub mod Deliveries
pub mod Contained
use processkit_go.Prelude.{
  ℤ, pos, ◌-ℤ◌, ℕ, suc, zero, Bool, true, ◌||◌, ◌==◌, Option, none, some, is_none, List, [], ◌∷◌,
  ◌++◌, map, if◌then◌else◌, codes,
}
use processkit_go.Errors.{Error, errno, other, Fallible, ok}
use processkit_go.Sys.{SysProcAttr, JobOps, Kernel}

-- `pgids` are process groups by their leaders, `solo` are adopted processes.
pub record PgroupJob : Type 0 where
  pub pgids : List ℤ
  pub solo : List ℤ

unfoldable pub new_pgroup_job : PgroupJob
new_pgroup_job = record { pgids = []; solo = [] }

abbrev pub negate : ℤ → ℤ
negate pid = pos 0 -ℤ pid

unfoldable pub configure : PgroupJob → SysProcAttr → Fallible SysProcAttr
configure j attr = ok (record attr { setpgid = true })

-- The errors of `Kill` for a target that is gone.
abbrev pub benign : {W : Type 0} → Kernel W → ℕ → Bool
benign k e = e == k.esrch || e == k.eperm

-- `*firstErr` after a `Kill` that answered with this error number.
abbrev pub keep_first : {W : Type 0} → Kernel W → Option Error → Option ℕ → Option Error
keep_first k (some first) answer = some first
keep_first k none none = none
keep_first k none (some e) = if benign k e then none else some (errno e)

module _ {W : Type 0} (k : Kernel W) where
  unfoldable pub assign : Option ℤ → PgroupJob → W → Option Error × PgroupJob × W
  assign none j w = (some (other (codes "sys: Assign called before the process started")), j, w)
  assign (some pid) j w = (none, record j { pgids = j.pgids ++ pid ∷ [] }, w)

  unfoldable pub deliver : ℤ → ℤ → Option Error → W → Option Error × W
  deliver target sig first w =
      let (answer, w') = k.kill target sig w in (keep_first k first answer, w')

  -- One of the two loops of `Signal`.
  unfoldable pub deliver_all : List ℤ → ℤ → Option Error → W → Option Error × W
  unfolding deliver
  deliver_all [] sig first w = (first, w)
  deliver_all (target ∷ rest) sig first w =
      let (first', w') = deliver target sig first w in deliver_all rest sig first' w'

  unfoldable pub signal : ℤ → PgroupJob → W → Option Error × W
  signal sig j w =
      let (first, w') = deliver_all (map negate j.pgids) sig none w in
      deliver_all j.solo sig first w'

  unfoldable pub suspend : PgroupJob → W → Option Error × W
  suspend j w = signal k.sigstop j w

  unfoldable pub resume : PgroupJob → W → Option Error × W
  resume j w = signal k.sigcont j w

  unfoldable pub track_solo : ℤ → PgroupJob → PgroupJob
  track_solo pid j = record j { solo = j.solo ++ pid ∷ [] }

  unfoldable pub adopt : ℤ → PgroupJob → W → Option Error × PgroupJob × W
  adopt pid j w =
      let (moved, w₁) = k.setpgid pid pid w in
      let (alive, w₂) = k.kill pid (pos 0) w₁ in
      if is_none moved
      then (none, record j { pgids = j.pgids ++ pid ∷ [] }, w₁)
      else (none, if is_none alive then track_solo pid j else j, w₂)

  unfoldable pub kill : PgroupJob → W → Option Error × W
  kill j w = signal k.sigkill j w

  unfoldable pub close : PgroupJob → W → Option Error × W
  close j w = (none, w)

  abbrev pub pgroup_ops : JobOps PgroupJob W
  pgroup_ops = record {
    configure = configure;
    assign = assign;
    adopt = adopt;
    signal = signal;
    suspend = suspend;
    resume = resume;
    kill = kill;
    close = close;
  }
