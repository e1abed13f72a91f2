-- ===== src/Command.antt =====
-- command.go: the command description, its copy-on-write builders, and the retry loop.
-- A method that returns a changed copy is a function into a new record. The environment of the
-- process, `os.Environ()`, is an argument of `append_env`.
pub mod Retry
pub mod Slices
pub mod Builders
pub mod BuiltIn
use processkit_go.Prelude.{
  ℤ, pos, ltb_ℤ, pos_part, ℕ, Bool, true, false, Option, none, some, List, [], ◌++◌, Bytes,
  if◌then◌else◌,
}
use processkit_go.Errors.{Error}
use processkit_go.Result.{Invocation, Reader, bytes_reader}

pub record RetryPolicy : Type 0 where
  pub max_attempts : ℤ
  pub backoff : ℤ
  pub retry_if : Option (Error → Bool)

-- `Cmd`, without the runner, which is a parameter of the verbs, and the logger.
pub record Cmd : Type 0 where
  pub program : Bytes
  pub args : List Bytes
  pub dir : Bytes
  pub env : Option (List Bytes)
  pub ok_codes : List ℤ
  pub timeout : ℤ
  pub retry : Option RetryPolicy
  pub stdin : Option Reader
  pub stdin_bytes : Bytes
  pub has_stdin_bytes : Bool
  pub unchecked_in_pipe : Bool

unfoldable pub command : Bytes → List Bytes → Cmd
command program args = record {
  program = program;
  args = args;
  dir = [];
  env = none;
  ok_codes = [];
  timeout = pos 0;
  retry = none;
  stdin = none;
  stdin_bytes = [];
  has_stdin_bytes = false;
  unchecked_in_pipe = false;
}

unfoldable pub with_args : List Bytes → Cmd → Cmd
with_args args c = record c { args = c.args ++ args }

unfoldable pub with_dir : Bytes → Cmd → Cmd
with_dir dir c = record c { dir = dir }

-- Not nil even when it is empty: an empty environment clears the inherited one.
unfoldable pub with_env : List Bytes → Cmd → Cmd
with_env env c = record c { env = some env }

abbrev pub inherited : Option (List Bytes) → List Bytes → List Bytes
inherited none environ = environ
inherited (some env) environ = env

-- `environ` is what `os.Environ()` returns.
unfoldable pub append_env : List Bytes → List Bytes → Cmd → Cmd
append_env environ env c = record c { env = some (inherited c.env environ ++ env) }

unfoldable pub with_timeout : ℤ → Cmd → Cmd
with_timeout d c = record c { timeout = d }

unfoldable pub with_ok_codes : List ℤ → Cmd → Cmd
with_ok_codes codes c = record c { ok_codes = codes }

unfoldable pub with_stdin : Option Reader → Cmd → Cmd
with_stdin r c = record c { stdin = r; stdin_bytes = []; has_stdin_bytes = false }

unfoldable pub with_stdin_bytes : Bytes → Cmd → Cmd
with_stdin_bytes b c = record c { stdin_bytes = b; has_stdin_bytes = true; stdin = none }

unfoldable pub with_unchecked_in_pipe : Cmd → Cmd
with_unchecked_in_pipe c = record c { unchecked_in_pipe = true }

unfoldable pub with_retry : ℤ → ℤ → Option (Error → Bool) → Cmd → Cmd
with_retry max_attempts backoff retry_if c = record c {
  retry = some (record { max_attempts = max_attempts; backoff = backoff; retry_if = retry_if });
}

unfoldable pub invocation : Cmd → Invocation
invocation c = record {
  program = c.program;
  args = c.args;
  dir = c.dir;
  env = c.env;
  ok_codes = c.ok_codes;
  timeout = c.timeout;
  stdin = if c.has_stdin_bytes then some (bytes_reader c.stdin_bytes) else c.stdin;
}
