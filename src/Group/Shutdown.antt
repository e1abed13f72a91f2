-- ===== src/Group/Shutdown.antt =====
-- group.go: `Close` as one call, and `Shutdown` with its grace period. The `select` that waits for a
-- member reads the world; `grace` ends where it chose the timer or the context.
pub mod Traced
use processkit_go.Prelude.{ℤ, pos, ℕ, Bool, true, false, Option, none, some, List, [], ◌∷◌}
use processkit_go.Errors.{Error}
use processkit_go.Log.{shutting_down}
use processkit_go.Sys.{JobOps}
use processkit_go.Running.{RunningProcess}
use processkit_go.Group.{Group, Host, mark_closed, tear_down, sig_term}

abbrev pub default_shutdown_grace : ℤ
default_shutdown_grace = pos 5000000000

module _ {J W : Type 0} (ops : JobOps J W) (host : Host W) where
  -- After the locked part of `Close`.
  unfoldable pub on_marked : Option ℕ × Group J → W → Option Error × Group J × W
  on_marked (none, g) w = (none, g, w)
  on_marked (some snapshot, g) w = tear_down ops host snapshot g w

  -- `Close`.
  unfoldable pub close_group : Group J → W → Option Error × Group J × W
  unfolding on_marked
  close_group g w = on_marked (mark_closed ops host g) w

  module _ (await_exit : ℤ → RunningProcess → W → Bool × W) where
    -- `waitGrace`, over the snapshot.
    unfoldable pub wait_grace : ℤ → List RunningProcess → W → W
    wait_grace grace [] w = w
    wait_grace grace (p ∷ ps) w =
        let (exited, w') = await_exit grace p w in
        elim exited [ true ↦ wait_grace grace ps w' | false ↦ w' ]

    -- After `job.Signal`.
    unfoldable pub on_signalled : ℤ → Group J → Option Error × W → Option Error × Group J × W
    unfolding wait_grace close_group
    on_signalled grace g (some e, w) = close_group g w
    on_signalled grace g (none, w) = close_group g (wait_grace grace g.procs w)

    -- `Shutdown`, with the grace period of its options.
    unfoldable pub shutdown : ℤ → Group J → W → Option Error × Group J × W
    unfolding on_signalled
    shutdown grace g w = on_signalled grace g (
        ops.signal (host.signal_number sig_term) g.job
          (host.log_event (shutting_down g.mechanism grace) w))
