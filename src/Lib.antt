-- ===== src/Lib.antt =====
-- processkit-go: child processes in kill-on-drop containers, for Go.
--
-- The program runs commands. A `Cmd` (command.go) describes one, a `ProcessRunner` (runner.go) runs its
-- invocation and captures a `Result` (result.go) or fails with a typed error (errors.go), and the
-- verbs Run, ExitCode and Probe interpret the result, with retries. A `Pipeline` (pipeline.go) folds
-- the outcomes of a chain of commands into one result, a `Supervisor` (supervisor.go) runs a command
-- again until its policy or budget ends it, and stream.go splits a process's output into lines and
-- delivers them on a bounded channel. The package processkittest doubles the runner: scripted
-- replies, a recorder, and a cassette that records results and replays them. A `Group` (group.go) holds
-- live processes, which run in one `Job` (internal/sys) that the group kills when it is closed; the
-- backends of a job are a cgroup, a Job Object or process groups. The probes of probe.go wait until a
-- running process is ready, and batch.go runs many commands with a bound on those in flight.
--
-- What each file models:
-- - Prelude and its children: shared helpers; `ℤ` is Go's `int` and `time.Duration`, `Bytes` is a Go
--   string or byte slice. Sums that the source makes on `int` do not reach the bounds of int64.
-- - Outcome: `Outcome` (result.go), `outcomeOf` (outcome_unix.go, outcome_windows.go), the mechanisms.
-- - Errors: the error types and sentinels of errors.go, and `errors.Is` over them. Errors/Render:
--   `preview` and `sanitize`, on the bytes of UTF-8; Errors/Texts: the methods `Error`. Transient:
--   `IsTransient` (classify.go, classify_unix.go, classify_windows.go).
-- - Result: `Result`, `NewResult` and the verbs' interpretations (result.go), with
--   `normalizeNewlines` in Result/Newlines. An accessor `(value, ok)` is an `Option`.
-- - Log: the methods of `runLog` (log.go) as events, and the record that each makes. A handler makes the
--   call whether a logger is set or not: it stands among its actions, or is given to its world.
-- - World: the caller's context and timers as a world `W` that each reading may change (clock.go), and
--   the `ProcessRunner` interface, a function from an invocation and a world.
-- - Command: `Cmd` and its builders, `invocation` (command.go). Command/Retry: `retryRun`.
--   Command/Slices, Command/Builders: `clone` and the builders once more, over Go's slices, which share
--   arrays. A new array has as much room as the parameter `spare` says.
--   Command/BuiltIn: `run`, the choice between a runner that was set and the built-in one.
-- - Runner: `JobRunner.Output` (runner.go) over a script of what the operating system answers; the
--   calls that start, contain, wait for and tear down the process are a list of actions.
-- - Pipeline: `pipefail` and what it uses (pipeline.go). Pipeline/Output: `Pipeline.Output`, over a
--   script like the runner's.
-- - Floats: the float64 operations of supervisor.go, a parameter.
-- - Supervisor: the policy, configuration, delays and storm score (supervisor.go).
--   Supervisor/Run: `Supervisor.Run` over a world.
-- - Stream: `drainLines`, `trimLineEnd` and the start options' defaults (stream.go). Stream/Sink:
--   `lineSink.emit` on the bounded channel, with the consumer as a sequence of events. Stream/Options,
--   Stream/Pipes: the options of a start, `preparePipes`, `closePipes` and `drainOne`.
-- - Sys: the interface `Job` (internal/sys/sys.go) with the contract that its clients rely on, and the
--   system calls as a parameter. Sys/ProcessGroup: the backend of internal/sys/job_unix.go.
--   Sys/Limits, Sys/Counters: the caps and the saturating arithmetic of internal/sys.
-- - Sys/Cgroup: `cgroupJob` of internal/sys/job_linux.go over the cgroup file system, with its creation
--   and the choice of a backend in Sys/Cgroup/Creation. A path under /sys/fs/cgroup is a directory and
--   a control file; what the process reads of its host once is the record `CgroupHost`.
-- - Sys/Windows: `winJob` of internal/sys/job_windows.go and, in Sys/Windows/Usage, `processMetrics` of
--   internal/sys/proc_windows.go, over the calls of golang.org/x/sys/windows. Pids and handles are
--   numbers within their types.
-- - Sys/Metrics: `processMetrics` of internal/sys/proc_linux.go, from the texts of the files under /proc.
--   Sys/Stats: the snapshots of the Unix backends. A figure with a Has flag is an `Option`.
-- - Text: what the program uses of the packages strings and strconv, on ASCII texts.
-- - Probe: `pollUntil`, `WaitFor` and `WaitForPort` (probe.go) over a world, `WaitForLine` in Probe/Lines.
-- - Stats: the snapshots of a group, `SampleStats` and `Profile` (stats.go), whose selects are lists of
--   choices.
-- - Batch: `WaitAny`, `WaitAll` and `OutputAll` (batch.go), the goroutines as workers whose steps interleave.
-- - Running: `RunningProcess` (running.go), a handle whose channels are flags. Group: `Group` and
--   `Signal` (group.go, signal.go). Group/Schedule: the interleavings of a group's operations as
--   sequences of events, one for each part that runs under the lock. Group/Limits: `NewGroup` and the
--   caps. Group/Shutdown: `Close` as one call, and `Shutdown`. Group/Signals: the
--   signals. Group/Piped: a start with the pipes of Stream/Pipes.
-- - Client: `CliClient` (client.go).
-- - Testkit/Recording, Testkit/Scripted: processkittest/doubles.go.
-- - Testkit/Cassette: processkittest/cassette.go. Testkit/Cassette/Files: its file, the JSON
--   text a parameter. Testkit/Cassette/Secure: `writeFileSecure` of processkittest/cassette_unix.go.
-- - Tests: every theorem of the list below at a concrete input, and runs of the definitions.
--
-- Fuel: the retry loop has the policy's attempts, which it cannot use up; the supervisor's loop has one
-- unit a run, and with a restart budget of `n` it ends within `n + 1`; the loops over a chunk of
-- output have its length, of which each round takes some; a poll has one unit a turn, and ends within one
-- for each cadence of 50 milliseconds in its time. Each is proved with the property it serves. The sweep
-- of a cgroup and its drain have the 50 rounds, and the making of its directory the 32 tries, of the code.
--
-- Not modelled: the system calls themselves, and packages fmt, encoding/json and log/slog; the
-- `writeFileSecure` of processkittest/cassette_windows.go, which is one call of package os; and `WithRunner`
-- and `WithLogger`, which set what the model takes as parameters.
mod Prelude
pub mod Outcome
pub mod Errors
pub mod Result
pub mod Log
pub mod World
pub mod Command
pub mod Testkit
pub mod Pipeline
pub mod Runner
pub mod Floats
pub mod Supervisor
pub mod Stream
pub mod Sys
pub mod Text
pub mod Running
pub mod Group
pub mod Client
pub mod Probe
pub mod Batch
pub mod Stats
pub mod Transient
mod Tests
