-- ===== src/Log.antt =====
-- log.go: the events that processkit logs, with what they show of outcomes and mechanisms
-- (`Outcome.String` of result.go, `Mechanism.String` of mechanism.go). A `LogEvent` is a call of one of
-- the methods of `runLog`; a handler makes the call whether a logger is set or not. The attributes are
-- rendered by package log/slog, which is not modelled.
use processkit_go.Prelude.{
  ℤ, pos, negsuc, sub_ℕ, ℕ, suc, ◌/◌, Bool, Option, none, some, List, [], ◌∷◌, ◌++◌, Bytes, codes,
  if◌then◌else◌,
}
use processkit_go.Outcome.{
  Mechanism, mechanism_unknown, mechanism_job_object, mechanism_process_group, mechanism_cgroup_v2,
  Outcome, outcome_exited, outcome_signalled, outcome_timed_out,
}
use processkit_go.Errors.{Error}
use processkit_go.Errors.Texts.{Fmt, error_text}

pub data LogEvent : Type 0 where
  child_spawned : Bytes → ℤ → Mechanism → LogEvent
  process_exited : Bytes → Outcome → ℤ → LogEvent
  wait_failed : Bytes → Error → LogEvent
  cancellation_fired : Bytes → LogEvent
  retrying : Bytes → ℕ → ℕ → ℤ → Error → LogEvent
  child_adopted : ℤ → Mechanism → LogEvent
  group_terminating : Mechanism → LogEvent
  shutting_down : Mechanism → ℤ → LogEvent
  supervisor_restart : Bytes → ℕ → ℤ → LogEvent
  pipeline_started : Bytes → ℕ → LogEvent
  pipeline_finished : Bytes → Outcome → ℤ → LogEvent
  timeout_elapsed : Bytes → ℤ → LogEvent
  supervisor_storm : Bytes → ℤ → LogEvent

pub data Level : Type 0 where
  level_debug level_warn : Level

pub data Attr : Type 0 where
  text_attr : Bytes → Bytes → Attr
  int_attr : Bytes → ℤ → Attr

pub record LogRecord : Type 0 where
  pub level : Level
  pub message : Bytes
  pub attrs : List Attr

-- `Mechanism.String`.
unfoldable pub mechanism_text : Mechanism → Bytes
mechanism_text mechanism_job_object = codes "JobObject"
mechanism_text mechanism_process_group = codes "ProcessGroup"
mechanism_text mechanism_cgroup_v2 = codes "CgroupV2"
mechanism_text mechanism_unknown = codes "Unknown"

-- `Duration.Milliseconds`, which rounds towards 0.
unfoldable pub ms : ℤ → ℤ
ms (pos n) = pos (n / 1000000)
ms (negsuc n) = sub_ℕ 0 (suc n / 1000000)

abbrev program_attr : Bytes → Attr
program_attr program = text_attr (codes "program") program

abbrev mechanism_attr : Mechanism → Attr
mechanism_attr m = text_attr (codes "mechanism") (mechanism_text m)

abbrev debug : Bytes → List Attr → LogRecord
debug message attrs = record { level = level_debug; message = message; attrs = attrs }

abbrev warn : Bytes → List Attr → LogRecord
warn message attrs = record { level = level_warn; message = message; attrs = attrs }

module _ (fmt : Fmt) where
  -- `Outcome.String`.
  unfoldable pub outcome_text : Outcome → Bytes
  outcome_text o = elim o.kind [
    | outcome_exited ↦ codes "exited(" ++ (fmt.show_int o.code ++ codes ")")
    | outcome_signalled ↦
        if o.has_signal
        then codes "signalled(" ++ (fmt.show_int o.signal ++ codes ")")
        else codes "signalled"
    | outcome_timed_out ↦ codes "timedOut"
  ]

  -- `errAttr`.
  unfoldable pub err_attr : Option Error → Attr
  err_attr none = text_attr (codes "error") []
  err_attr (some e) = text_attr (codes "error") (error_text fmt e)

  abbrev ended : Bytes → Outcome → ℤ → List Attr
  ended program outcome elapsed =
      program_attr program
      ∷ text_attr (codes "outcome") (outcome_text outcome)
      ∷ int_attr (codes "elapsed_ms") (ms elapsed)
      ∷ []

  -- The record that each method makes.
  unfoldable pub record_of : LogEvent → LogRecord
  unfolding mechanism_text ms outcome_text err_attr
  record_of (child_spawned program pid m) =
      debug (codes "child spawned")
        (program_attr program ∷ int_attr (codes "pid") pid ∷ mechanism_attr m ∷ [])
  record_of (process_exited program outcome elapsed) =
      debug (codes "process exited") (ended program outcome elapsed)
  record_of (wait_failed program cause) =
      warn (codes "process wait failed; no exit status")
        (program_attr program ∷ err_attr (some cause) ∷ [])
  record_of (cancellation_fired program) =
      debug (codes "cancellation fired; killing the tree") (program_attr program ∷ [])
  record_of (retrying program attempt max_attempts backoff cause) =
      debug (codes "retrying after a retryable failure") (
        program_attr program
        ∷ int_attr (codes "attempt") (pos attempt)
        ∷ int_attr (codes "max_attempts") (pos max_attempts)
        ∷ int_attr (codes "backoff_ms") (ms backoff)
        ∷ err_attr (some cause)
        ∷ [])
  record_of (child_adopted pid m) =
      debug (codes "adopted an externally spawned child")
        (int_attr (codes "pid") pid ∷ mechanism_attr m ∷ [])
  record_of (group_terminating m) =
      debug (codes "terminating every process in the group") (mechanism_attr m ∷ [])
  record_of (shutting_down m grace) =
      debug (codes "graceful shutdown: signal, grace, then kill")
        (mechanism_attr m ∷ int_attr (codes "grace_ms") (ms grace) ∷ [])
  record_of (supervisor_restart program restart backoff) =
      debug (codes "supervisor restarting child") (
        program_attr program
        ∷ int_attr (codes "restart") (pos restart)
        ∷ int_attr (codes "backoff_ms") (ms backoff)
        ∷ [])
  record_of (pipeline_started program stages) =
      debug (codes "pipeline started")
        (program_attr program ∷ int_attr (codes "stages") (pos stages) ∷ [])
  record_of (pipeline_finished program outcome elapsed) =
      debug (codes "pipeline finished") (ended program outcome elapsed)
  record_of (timeout_elapsed program timeout) =
      warn (codes "timeout elapsed; killing the tree")
        (program_attr program ∷ int_attr (codes "timeout_ms") (ms timeout) ∷ [])
  record_of (supervisor_storm program pause) =
      warn (codes "supervisor failure storm; pausing restarts")
        (program_attr program ∷ int_attr (codes "pause_ms") (ms pause) ∷ [])

  -- A method of `runLog`, by whether a logger is set.
  unfoldable pub emit : Bool → LogEvent → List LogRecord
  unfolding record_of
  emit logging e = if logging then record_of e ∷ [] else []
