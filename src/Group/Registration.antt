-- ===== src/Group/Registration.antt =====
-- Which processes `Group.Start` registers (group.go).
use processkit_go.Prelude.{
  ℤ, Bool, true, false, Option, none, some, [], ◌∷◌, ◌++◌, ◌≡◌, refl, if◌then◌else◌,
}
use processkit_go.Errors.{Error, Fallible, ok, err}
use processkit_go.Result.{Invocation}
use processkit_go.Stream.{StartConfig}
use processkit_go.Sys.{JobOps, SysProcAttr}
use processkit_go.Running.{RunningProcess}
use processkit_go.Group.{Group, Host, on_assigned, on_spawned, on_piped, on_configured, start}

-- A start that returns a handle appends it to the group's, with the command's program and as not
-- finished, and only if the group is open; a start that fails adds no handle.
pub data Registered {J W : Type 0} (inv : Invocation) (g : Group J)
    : Fallible RunningProcess × Group J × W → Type 0 where
  registered :
      (p : RunningProcess) (g' : Group J) (w : W)
      → g.closed ≡ false
      → g'.closed ≡ false
      → g'.procs ≡ g.procs ++ p ∷ []
      → p.program ≡ inv.program
      → p.finished ≡ none
      → Registered inv g (ok p, g', w)
  refused :
      (e : Error) (g' : Group J) (w : W)
      → g'.closed ≡ g.closed
      → g'.procs ≡ g.procs
      → Registered inv g (err e, g', w)

module _ {J W : Type 0} (ops : JobOps J W) (host : Host W) (inv : Invocation) (config : StartConfig)
    (g : Group J) where
  on_assigned-Registered :
      (pid : ℤ) (r : Option Error × J × W)
      → g.closed ≡ false
      → Registered inv g (on_assigned ops host inv config pid g r)
  unfolding on_assigned
  on_assigned-Registered pid (none, job, w) c = registered _ _ _ c c refl refl refl
  on_assigned-Registered pid (some e, job, w) c = refused _ _ _ refl refl

  on_spawned-Registered :
      (r : Fallible ℤ × W)
      → g.closed ≡ false
      → Registered inv g (on_spawned ops host inv config g r)
  unfolding on_spawned
  on_spawned-Registered (err e, w) c = refused _ _ _ refl refl
  on_spawned-Registered (ok pid, w) c = on_assigned-Registered pid _ c

  on_piped-Registered :
      (attr : SysProcAttr) (r : Option Error × W)
      → g.closed ≡ false
      → Registered inv g (on_piped ops host inv config attr g r)
  unfolding on_piped
  on_piped-Registered attr (some e, w) c = refused _ _ _ refl refl
  on_piped-Registered attr (none, w) c = on_spawned-Registered _ c

  on_configured-Registered :
      (w : W) (r : Fallible SysProcAttr)
      → g.closed ≡ false
      → Registered inv g (on_configured ops host inv config g w r)
  unfolding on_configured
  on_configured-Registered w (err e) c = refused _ _ _ refl refl
  on_configured-Registered w (ok attr) c = on_piped-Registered attr _ c

  if-Registered :
      (c : Bool) (a b : Fallible RunningProcess × Group J × W)
      → Registered inv g a
      → (c ≡ false → Registered inv g b)
      → Registered inv g (if c then a else b)
  if-Registered true a b ha hb = ha
  if-Registered false a b ha hb = hb refl

  -- Whatever the job, the pipes and the spawn answer, a start either returns a handle of the command's
  -- program that has not finished, appended to those of a group that is and stays open, or fails and
  -- leaves the handles and the closed flag as they were.
  pub start-Registered : (w : W) → Registered inv g (start ops host inv config g w)
  unfolding start
  start-Registered w =
      if-Registered g.closed _ _ (refused _ _ _ refl refl) (λ c. on_configured-Registered w _ c)
