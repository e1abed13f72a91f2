-- ===== src/Tests/Probes.antt =====
-- Probes (probe.go) of a process that is ready after some checks. The world is a clock.
use processkit_go.Prelude.{
  arith, pos, pos_part, ltb, ℕ, ◌+◌, true, false, none, is_some, [], ◌∷◌, codes, Bytes, Bool,
  length, ◌≡◌, refl, ◌+ℤ◌, ◌-ℤ◌,
}
use processkit_go.Outcome.{mechanism_process_group}
use processkit_go.Errors.{ok}
use processkit_go.World.{Surroundings}
use processkit_go.Stream.{Line, stream_stdout}
use processkit_go.Running.{RunningProcess}
use processkit_go.Probe.{
  Env, Check, poll_until, non_negative, loop, on_turn, turn, on_checked, on_alive, on_time,
  on_slept, nap,
}
use processkit_go.Probe.Verdicts.{Polls, Ended, poll_until-Ended}
use processkit_go.Probe.Deadline.{poll_until_ends}
use processkit_go.Probe.Lines.{
  took_line, timer_fired, wait_for_line, scan_buffered, select_lines, on_line, Searched,
  wait_for_line-Searched,
}

abbrev clocked : Surroundings ℕ
clocked = record {
  ctx_err = λ w. none;
  timer = λ d w. (true, w + pos_part d);
  log_event = λ e w. w;
}

abbrev clock_env : Env ℕ
clock_env = record { surroundings = clocked; now = λ w. (pos w, w); exited = λ w. (false, w) }

-- Ready from 120 milliseconds on.
abbrev late_ready : Check ℕ
late_ready w = ((ltb 120000000 w, none), w)

poll_until_ends_example :
    is_some (poll_until clock_env (codes "srv") (codes "predicate") (pos 200000000) late_ready 5 0)
    ≡ true
poll_until_ends_example =
    poll_until_ends clock_env (codes "srv") (codes "predicate") (pos 200000000) late_ready (λ w. w)
      (λ w. (refl, omega arith)) (λ w. omega arith) (λ w. omega arith) (λ d w fired. omega arith) 4
      0 (omega arith)

poll_until-Ended_example :
    (v : ℕ) × (Polls clock_env
        (codes "srv")
        (codes "predicate")
        (pos 200000000)
        late_ready
        (pos 0 +ℤ non_negative (pos 200000000))
        0
        v
      × Ended clock_env
          (codes "srv")
          (codes "predicate")
          (pos 200000000)
          late_ready
          (pos 0 +ℤ non_negative (pos 200000000))
          v
          none)
unfolding ◌+ℤ◌ ◌-ℤ◌
poll_until-Ended_example =
    poll_until-Ended clock_env (codes "srv") (codes "predicate") (pos 200000000) late_ready
      (λ d v fired. ground arith) 5 0 150000000 none
      (unfold poll_until non_negative loop on_turn turn on_checked on_alive on_time on_slept nap in
        refl)

abbrev streaming : RunningProcess
streaming = record {
  pid = pos 7;
  program = codes "srv";
  mechanism = mechanism_process_group;
  stopped = false;
  has_lines = true;
  lines_closed = false;
  finished = none;
}

abbrev says : Bytes → Line
says text = record { stream = stream_stdout; text = text }

abbrev long_enough : Bytes → Bool
long_enough text = ltb 2 (length text)

wait_for_line-Searched_example :
    Searched
      (codes "srv")
      (pos 0)
      long_enough
      (says (codes "a") ∷ says (codes "ready") ∷ says (codes "later") ∷ [])
      (ok (codes "ready"))
      (says (codes "later") ∷ [])
wait_for_line-Searched_example =
    wait_for_line-Searched streaming (pos 0) long_enough (true ∷ []) (took_line ∷ timer_fired ∷ [])
      (says (codes "a") ∷ says (codes "ready") ∷ says (codes "later") ∷ [])
      (says (codes "later") ∷ []) (ok (codes "ready")) refl
      (unfold wait_for_line scan_buffered select_lines on_line in refl)
