-- ===== src/Runner/Secrecy.antt =====
-- What the events of a run (runner.go, log.go) can show.
use processkit_go.Prelude.{ℤ, Bool, Option, List, [], ◌∷◌, ◌++◌, Bytes, ◌≡◌, arith}
use processkit_go.Outcome.{Platform}
use processkit_go.Errors.Texts.{Fmt}
use processkit_go.Log.{LogEvent, LogRecord, emit}
use processkit_go.Result.{Invocation, Reader}
use processkit_go.Runner.{Script, conclude, supervise_child, output, cancelled_by}
use processkit_go.Runner.Lifecycle.{events_of}

-- The records that a logger takes, if one is set.
abbrev pub records_of : Fmt → Bool → List LogEvent → List LogRecord
records_of fmt logging [] = []
records_of fmt logging (e ∷ rest) = emit fmt logging e ++ records_of fmt logging rest

-- The invocation with other arguments, directory, environment, ok-codes and input.
abbrev pub with_secrets :
    List Bytes → Bytes → Option (List Bytes) → List ℤ → Option Reader → Invocation → Invocation
with_secrets args dir env ok_codes stdin inv = record inv {
  args = args;
  dir = dir;
  env = env;
  ok_codes = ok_codes;
  stdin = stdin;
}

-- The script with other output.
abbrev pub with_output : Bytes → Bytes → Script → Script
with_output stdout stderr s = record s { stdout = stdout; stderr = stderr }

-- The arguments, the working directory, the environment, the ok-codes and the input of a run, and what
-- its process prints, do not show in the records of its log: where the operating system answers the
-- same otherwise, other values of them give the same records.
pub output-secrecy :
    (fmt : Fmt) (logging : Bool) (platform : Platform) (inv : Invocation) (s : Script)
    (args : List Bytes) (dir : Bytes) (env : Option (List Bytes)) (ok_codes : List ℤ)
    (stdin : Option Reader) (stdout stderr : Bytes)
    → records_of fmt logging (
        events_of
          (output platform
            (with_secrets args dir env ok_codes stdin inv)
            (with_output stdout stderr s)).1)
      ≡ records_of fmt logging (events_of (output platform inv s).1)
unfolding output supervise_child conclude cancelled_by
output-secrecy fmt logging platform inv s args dir env ok_codes stdin stdout stderr = ground arith
