-- ===== src/Tests/Pipes.antt =====
-- A start with two pipes (group.go, stream.go) of a child that the job does not take. The world says which
-- of the readers 5 and 6 are open; a Wait closes both, as that of os/exec does.
use processkit_go.Prelude.{
  arith, ℤ, pos, eqb_ℤ, eqb_ℤ_iff, ℕ, Bool, true, false, ◌&&◌, ◌||◌, not, none, some, [], ◌∷◌, refl,
  ap, sym, inl, inr, Bool-cases,
}
use processkit_go.Outcome.{mechanism_cgroup_v2}
use processkit_go.Errors.{errno, ok}
use processkit_go.Stream.{StartConfig}
use processkit_go.Stream.Options.{stream_lines_option, configured}
use processkit_go.Stream.Pipes.{PipeOps, no_pipes}
use processkit_go.Stream.Pipes.Shut.{ReaderLaws}
use processkit_go.Sys.{JobOps}
use processkit_go.Group.{Host, new_group, start}
use processkit_go.Group.Piped.{piped_host, piped_job, StartLaws, Closed, start-Closed}
use processkit_go.Tests.Samples.{git_status}

abbrev two_pipes : PipeOps (Bool × Bool)
two_pipes = record {
  stdout_pipe = λ w. (ok (pos 5), (true, w.1));
  stderr_pipe = λ w. (ok (pos 6), (w.0, true));
  close_reader = λ r w. (w.0 && not (eqb_ℤ r (pos 5)), w.1 && not (eqb_ℤ r (pos 6)));
}

abbrev is_open : ℤ → Bool × Bool → Bool
is_open q w = (eqb_ℤ q (pos 5) && w.0) || (eqb_ℤ q (pos 6) && w.1)

two_pipes-ReaderLaws : ReaderLaws two_pipes is_open
two_pipes-ReaderLaws = record {
  stdout_opens_one = λ q w shut. elim (Bool-cases (eqb_ℤ q (pos 5))) [
    | inl e ↦ inr (ap ok (sym ((eqb_ℤ_iff q (pos 5)).0 e)))
    | inr e ↦ inl (ground arith)
  ];
  stderr_opens_one = λ q w shut. elim (Bool-cases (eqb_ℤ q (pos 6))) [
    | inl e ↦ inr (ap ok (sym ((eqb_ℤ_iff q (pos 6)).0 e)))
    | inr e ↦ inl (ground arith)
  ];
  close_shuts = λ q w. ground arith;
  close_opens_none = λ q r w shut. ground arith;
}

abbrev refusing_job : JobOps ℕ (Bool × Bool)
refusing_job = record {
  configure = λ j attr. ok attr;
  assign = λ pid j w. (some (errno 5), j, w);
  adopt = λ pid j w. (none, j, w);
  signal = λ sig j w. (none, w);
  suspend = λ j w. (none, w);
  resume = λ j w. (none, w);
  kill = λ j w. (none, w);
  close = λ j w. (none, w);
}

abbrev spawning : Host (Bool × Bool)
spawning = record {
  prepare_pipes = λ config w. (none, w);
  close_pipes = λ w. w;
  spawn = λ attr inv w. (ok (pos 41), w);
  kill_process = λ pid w. w;
  wait_process = λ pid w. (false, false);
  path_dirs = [];
  signal_number = λ kind. pos 15;
  show_int = λ n. [];
  log_event = λ e w. w;
}

spawning-StartLaws : StartLaws refusing_job spawning is_open
spawning-StartLaws = record {
  spawn_opens_none = λ q attr inv w shut. shut;
  kill_opens_none = λ q pid w shut. shut;
  wait_opens_none = λ q pid w shut. ground arith;
  assign_opens_none = λ q pid j w shut. shut;
}

abbrev streaming : StartConfig
streaming = configured (stream_lines_option ∷ [])

start-Closed_example :
    Closed two_pipes refusing_job spawning is_open two_pipes-ReaderLaws spawning-StartLaws (pos 5) (
      start
        (piped_job refusing_job)
        (piped_host two_pipes spawning)
        git_status
        streaming
        (new_group mechanism_cgroup_v2 0)
        ((false, false), no_pipes))
start-Closed_example =
    start-Closed two_pipes refusing_job spawning is_open two_pipes-ReaderLaws spawning-StartLaws
      (pos 5) git_status streaming (new_group mechanism_cgroup_v2 0) ((false, false), no_pipes) refl
