-- ===== src/Tests/Logs.antt =====
-- What the runs of a command and its retries log (log.go, runner.go, command.go), at concrete inputs.
use processkit_go.Prelude.{pos, true, none, [], ◌∷◌, codes, ◌≡◌, refl}
use processkit_go.Outcome.{unix, mechanism_process_group}
use processkit_go.Errors.Texts.{Fmt}
use processkit_go.Log.{child_spawned, process_exited, timeout_elapsed}
use processkit_go.Runner.{Script, output}
use processkit_go.Runner.Lifecycle.{Story, contained, events_of, output-Story}
use processkit_go.Runner.Secrecy.{records_of, with_secrets, with_output, output-secrecy}
use processkit_go.Tests.Samples.{git_status, deadline}
use processkit_go.Tests.Chains.{fine}

-- Numbers are shown as a digit, and nothing is trimmed.
abbrev plain : Fmt
plain = record {
  trim_space = λ b. b;
  show_int = λ n. codes "0";
  show_duration = λ d. codes "0s";
  show_errno = λ n. codes "errno";
  show_quoted = λ b. b;
  show_list = λ l. [];
}

-- A run that the deadline of a second ends.
abbrev slow : Script
slow = record fine { deadline_exceeded = true }

slow_events :
    events_of (output unix (record git_status { timeout = pos 1000000000 }) slow).1
    ≡ child_spawned (codes "git") (pos 41) mechanism_process_group
      ∷ timeout_elapsed (codes "git") (pos 1000000000)
      ∷ process_exited (codes "git") deadline (pos 5)
      ∷ []
unfolding output processkit_go.Runner.cancelled_by processkit_go.Runner.conclude
    processkit_go.Runner.resolve_outcome processkit_go.Outcome.timed_out
slow_events = refl

output-Story_example :
    Story git_status
      (contained (output unix git_status fine).1)
      (output unix git_status fine).0
      (events_of (output unix git_status fine).1)
output-Story_example = output-Story unix git_status fine

output-secrecy_example :
    records_of plain true (
      events_of
        (output unix
          (with_secrets (codes "--token=s3cret" ∷ []) (codes "/home") none [] none git_status)
          (with_output (codes "s3cret") [] fine)).1)
    ≡ records_of plain true (events_of (output unix git_status fine).1)
output-secrecy_example =
    output-secrecy plain true unix git_status fine (codes "--token=s3cret" ∷ []) (codes "/home")
      none [] none (codes "s3cret") []
