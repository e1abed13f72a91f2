-- ===== src/Sys/Cgroup/Caps.antt =====
-- internal/sys/job_linux.go with `NewGroup` of group.go: the caps of a cgroup.
use processkit_go.Prelude.{
  arith, ℤ, pos, Bool, true, false, not, Option, none, some, List, [], ◌∷◌, Bytes, ◌≡◌, refl, subst,
  if◌then◌else◌, ap,
}
use processkit_go.Errors.{Error, Fallible, ok, err}
use processkit_go.Floats.{Floats}
use processkit_go.Group.{Group, new_group}
use processkit_go.Group.Limits.{make_group, Capped, enforced, not_enforced, make_group-Capped}
use processkit_go.Sys.Limits.{Limits, any_limit}
use processkit_go.Sys.ProcessGroup.{new_pgroup_job}
use processkit_go.Sys.Cgroup.{
  write_cgroup, ControlFile, memory_max, pids_max, cpu_max, CgroupFs, CgroupJob,
}
use processkit_go.Sys.Cgroup.Creation.{
  CgroupHost, cap_writes, prepend_if, cpu_max_value, LinuxJob, cgroup, process_group, or_else,
  write_caps, on_enabled, apply_limits, on_opened, on_limited, on_made, on_rel, create_cgroup,
  on_created, new_job, job_mechanism, kernel_at_least,
}

err-not_ok {ℓ} : {A : Type ℓ} {e : Error} {a : A} → Fallible.err e ≡ ok a → ⊥
err-not_ok h = ground arith

module _ {W : Type 0} (fs : CgroupFs W) where
  -- The kernel takes each of these writes to the directory, one right after the other, from a world on.
  pub data Accepted (path : Bytes) : List (ControlFile × Bytes) → W → Type 0 where
    all_taken : (w : W) → Accepted path [] w
    taken :
        (file : ControlFile) (content : Bytes) (rest : List (ControlFile × Bytes)) (w : W)
        → (write_cgroup fs path file content w).0 ≡ none
        → Accepted path rest (write_cgroup fs path file content w).1
        → Accepted path ((file, content) ∷ rest) w

  -- The kernel took this text for this control file of the directory.
  pub record Took (path : Bytes) (file : ControlFile) (content : Bytes) : Type 0 where
    pub world : W
    pub written : (write_cgroup fs path file content world).0 ≡ none

module _ (f : Floats) {W : Type 0} (fs : CgroupFs W) (host : CgroupHost) where
  -- A cgroup whose control files took every cap that is asked for.
  pub data Enforced (l : Limits f) : LinuxJob f → Type 0 where
    in_cgroup :
        (j : CgroupJob)
        → (l.has_memory_max ≡ true → Took fs j.path memory_max (fs.itoa (pos l.memory_max)))
        → (l.has_max_processes ≡ true → Took fs j.path pids_max (fs.itoa (pos l.max_processes)))
        → (l.has_cpu_quota ≡ true → Took fs j.path cpu_max (cpu_max_value f fs.itoa l.cpu_quota))
        → Enforced l (cgroup j)

  prepend_if-Took :
      (path : Bytes) (b : Bool) (file : ControlFile) (content : Bytes)
      (rest : List (ControlFile × Bytes)) (w : W)
      → Accepted fs path (prepend_if b (file, content) rest) w
      → (b ≡ true → Took fs path file content) × ((v : W) × Accepted fs path rest v)
  prepend_if-Took path true file content rest w (taken _ _ _ _ done later) =
      (λ e. record { world = w; written = done }, (_, later))
  prepend_if-Took path false file content rest w h = (λ e. absurd (ground arith), (w, h))

  cap_writes-Enforced :
      (l : Limits f) (j : CgroupJob) (w : W)
      → Accepted fs j.path (cap_writes f fs.itoa l) w
      → Enforced l (cgroup j)
  unfolding cap_writes
  cap_writes-Enforced l j w h =
      let (memory, (w₁, h₁)) = prepend_if-Took j.path l.has_memory_max _ _ _ w h in
      let (processes, (w₂, h₂)) = prepend_if-Took j.path l.has_max_processes _ _ _ w₁ h₁ in
      let (cpu, _) = prepend_if-Took j.path l.has_cpu_quota _ _ _ w₂ h₂ in
      in_cgroup j memory processes cpu

  or_else-none :
      (failed : Option Error) (v : W) (later : Option Error × W)
      → (or_else f fs host failed v later).0 ≡ none
      → (failed ≡ none) × (later.0 ≡ none)
  unfolding or_else
  or_else-none none v later h = (refl, h)
  or_else-none (some e) v later h = absurd (ground arith)

  write_caps-Accepted :
      (path : Bytes) (caps : List (ControlFile × Bytes)) (w : W)
      → (write_caps f fs host path caps w).0 ≡ none
      → Accepted fs path caps w
  unfolding write_caps
  write_caps-Accepted path [] w h = all_taken w
  write_caps-Accepted path ((file, content) ∷ rest) w h =
      let both = or_else-none _ _ _ h in
      taken file content rest w both.0 (write_caps-Accepted path rest _ both.1)

  on_enabled-Accepted :
      (path : Bytes) (l : Limits f) (r : Option Error × W)
      → (on_enabled f fs host path l r).0 ≡ none
      → (v : W) × Accepted fs path (cap_writes f fs.itoa l) v
  unfolding on_enabled
  on_enabled-Accepted path l (none, w) h = (w, write_caps-Accepted path _ w h)
  on_enabled-Accepted path l (some e, w) h = absurd (ground arith)

  apply_limits-Accepted :
      (path parent : Bytes) (l : Limits f) (w : W)
      → (apply_limits f fs host path parent l w).0 ≡ none
      → (v : W) × Accepted fs path (cap_writes f fs.itoa l) v
  unfolding apply_limits
  apply_limits-Accepted path parent l w h = on_enabled-Accepted path l _ h

  on_opened-path :
      (path : Bytes) (r : Fallible ℤ × W) (j : CgroupJob)
      → (on_opened f fs host path r).0 ≡ ok j
      → path ≡ j.path
  unfolding on_opened
  on_opened-path path (err e, w) j h = absurd (err-not_ok h)
  on_opened-path path (ok fd, w) j h = ground arith

  on_limited-Accepted :
      (path : Bytes) (l : Limits f) (r : Option Error × W) (j : CgroupJob)
      → (r.0 ≡ none → (v : W) × Accepted fs path (cap_writes f fs.itoa l) v)
      → (on_limited f fs host path r).0 ≡ ok j
      → (v : W) × Accepted fs j.path (cap_writes f fs.itoa l) v
  unfolding on_limited
  on_limited-Accepted path l (none, w) j caps h =
      subst (λ p. (v : W) × Accepted fs p (cap_writes f fs.itoa l) v) (on_opened-path path _ j h)
        (caps refl)
  on_limited-Accepted path l (some e, w) j caps h = absurd (err-not_ok h)

  on_made-Accepted :
      (parent : Bytes) (l : Limits f) (r : Fallible Bytes × W) (j : CgroupJob)
      → any_limit f l ≡ true
      → (on_made f fs host parent l r).0 ≡ ok j
      → (v : W) × Accepted fs j.path (cap_writes f fs.itoa l) v
  unfolding on_made
  on_made-Accepted parent l (err e, w) j any h = absurd (err-not_ok h)
  on_made-Accepted parent l (ok path, w) j any h =
      on_limited-Accepted path l _ j (limited (any_limit f l) any) h
    where
      limited :
          (b : Bool)
          → b ≡ true
          → (if◌then◌else◌ {A = Option Error × W} b
              (apply_limits f fs host path parent l w)
              (none, w)).0
            ≡ none
          → (v : W) × Accepted fs path (cap_writes f fs.itoa l) v
      limited true t h = apply_limits-Accepted path parent l w h
      limited false t h = absurd (ground arith)

  on_rel-Accepted :
      (l : Limits f) (r : Fallible Bytes) (w : W) (j : CgroupJob)
      → any_limit f l ≡ true
      → (on_rel f fs host l r w).0 ≡ ok j
      → (v : W) × Accepted fs j.path (cap_writes f fs.itoa l) v
  unfolding on_rel
  on_rel-Accepted l (err e) w j any h = absurd (err-not_ok h)
  on_rel-Accepted l (ok rel) w j any h = on_made-Accepted _ l _ j any h

  create_cgroup-Accepted :
      (l : Limits f) (w : W) (j : CgroupJob)
      → any_limit f l ≡ true
      → (create_cgroup f fs host l w).0 ≡ ok j
      → (v : W) × Accepted fs j.path (cap_writes f fs.itoa l) v
  unfolding create_cgroup
  create_cgroup-Accepted l w j any h =
      on_rel-Accepted l _ w j any
        (go (not host.mounted) (not (kernel_at_least host.release (pos 5) (pos 7))) _ _ _ h)
    where
      go :
          (a b : Bool) (d e : Error) (r : Fallible CgroupJob × W)
          → (if◌then◌else◌ {A = Fallible CgroupJob × W} a
              (err d, w)
              (if b then (err e, w) else r)).0
            ≡ ok j
          → r.0 ≡ ok j
      go true b d e r h = absurd (err-not_ok h)
      go false true d e r h = absurd (err-not_ok h)
      go false false d e r h = h

  on_created-Enforced :
      (l : Limits f) (r : Fallible CgroupJob × W) (job : LinuxJob f)
      → any_limit f l ≡ true
      → ((j : CgroupJob) → r.0 ≡ ok j → (v : W) × Accepted fs j.path (cap_writes f fs.itoa l) v)
      → (on_created f fs host l r).0 ≡ ok job
      → Enforced l job
  unfolding on_created
  on_created-Enforced l (ok j, w) job any caps h =
      subst (Enforced l) (ground arith) (cap_writes-Enforced l j (caps j refl).0 (caps j refl).1)
  on_created-Enforced l (err e, w) job any caps h = go (any_limit f l) any h
    where
      go :
          (b : Bool)
          → b ≡ true
          → (if◌then◌else◌ {A = Fallible (LinuxJob f) × W} b
              (err e, w)
              (ok (process_group new_pgroup_job), w)).0
            ≡ ok job
          → Enforced l job
      go true t h = absurd (err-not_ok h)
      go false t h = absurd (ground arith)

  new_job-Enforced :
      (l : Limits f) (w : W) (job : LinuxJob f)
      → any_limit f l ≡ true
      → (new_job f fs host l w).0 ≡ ok job
      → Enforced l job
  unfolding new_job
  new_job-Enforced l w job any h =
      on_created-Enforced l _ job any (λ j e. create_cgroup-Accepted l w j any e) h

  -- A group that `NewGroup` returns with a cap asked for, on this platform, holds a cgroup, and the kernel
  -- took each cap that was asked for: a memory cap into memory.max, a process cap into pids.max and a
  -- quota into cpu.max, of the cgroup's directory. It never falls back to a process group.
  pub make_group-Enforced :
      (text_of : Error → Bytes) (l : Limits f) (w : W) (g : Group (LinuxJob f))
      → any_limit f l ≡ true
      → make_group f (λ l. (new_job f fs host l w).0) (job_mechanism f) text_of l ≡ ok g
      → Enforced l g.job
  unfolding new_group
  make_group-Enforced text_of l w g any h =
      go _ (make_group-Capped f _ (job_mechanism f) text_of l any) h
    where
      go :
          (r : Fallible (Group (LinuxJob f)))
          → Capped f (λ l. (new_job f fs host l w).0) (job_mechanism f) text_of l r
          → r ≡ ok g
          → Enforced l g.job
      go _ (enforced job valid made) h =
          subst (Enforced l) (ap job_of h) (new_job-Enforced l w job any made)
        where
          job_of : Fallible (Group (LinuxJob f)) → LinuxJob f
          job_of (ok g) = g.job
          job_of (err e) = job
      go _ (not_enforced e known) h = absurd (err-not_ok h)
