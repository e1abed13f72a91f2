-- ===== src/Client.antt =====
-- client.go: a command-line client, a base command with defaults to which each call adds its arguments.
-- The client's runner is a parameter of the verbs, as it is for commands.
use processkit_go.Prelude.{ℤ, Bool, Option, List, [], ◌∷◌, Bytes, ◌≡◌, refl, ap, ◌∙◌}
use processkit_go.Errors.{Fallible}
use processkit_go.Result.{Result, result_run, result_exit_code, result_probe}
use processkit_go.World.{Runner, Surroundings}
use processkit_go.Command.{
  Cmd, command, with_args, with_dir, with_env, append_env, with_timeout, with_ok_codes, invocation,
}
use processkit_go.Command.Retry.{retry_run}

pub record CliClient : Type 0 where
  pub base : Cmd

unfoldable pub new_client : Bytes → CliClient
new_client program = record { base = command program [] }

-- The defaults of a client: `WithTimeout`, `WithEnv`, `AppendEnv`, `WithDir` and `WithOkCodes`.
pub data Default : Type 0 where
  timeout_default : ℤ → Default
  env_default : List Bytes → Default
  append_env_default : List Bytes → Default
  dir_default : Bytes → Default
  ok_codes_default : List ℤ → Default

-- The builder of the same name on a command; `environ` is `os.Environ()`.
unfoldable pub on_command : List Bytes → Default → Cmd → Cmd
on_command environ (timeout_default d) c = with_timeout d c
on_command environ (env_default env) c = with_env env c
on_command environ (append_env_default env) c = append_env environ env c
on_command environ (dir_default dir) c = with_dir dir c
on_command environ (ok_codes_default codes) c = with_ok_codes codes c

unfoldable pub with_default : List Bytes → Default → CliClient → CliClient
with_default environ d c = record { base = on_command environ d c.base }

-- `CliClient.Command`.
unfoldable pub command_of : List Bytes → CliClient → Cmd
command_of args c = with_args args c.base

module _ {W : Type 0} (s : Surroundings W) (runner : Runner W) (c : CliClient) where
  unfoldable pub client_run : List Bytes → W → Option (Fallible Bytes × W)
  client_run args w = retry_run s runner (command_of args c) result_run w

  unfoldable pub client_output : List Bytes → W → Fallible Result × W
  client_output args w = runner (invocation (command_of args c)) w

  unfoldable pub client_exit_code : List Bytes → W → Option (Fallible ℤ × W)
  client_exit_code args w = retry_run s runner (command_of args c) result_exit_code w

  unfoldable pub client_probe : List Bytes → W → Option (Fallible Bool × W)
  client_probe args w = retry_run s runner (command_of args c) result_probe w

-- Defaults, the first one first.
abbrev pub with_defaults : List Bytes → List Default → CliClient → CliClient
with_defaults environ [] c = c
with_defaults environ (d ∷ ds) c = with_defaults environ ds (with_default environ d c)

abbrev pub on_command_all : List Bytes → List Default → Cmd → Cmd
on_command_all environ [] c = c
on_command_all environ (d ∷ ds) c = on_command_all environ ds (on_command environ d c)

with_args-on_command :
    (environ args : List Bytes) (d : Default) (c : Cmd)
    → with_args args (on_command environ d c) ≡ on_command environ d (with_args args c)
unfolding with_args on_command with_timeout with_env append_env with_dir with_ok_codes
with_args-on_command environ args (timeout_default d) c = refl
with_args-on_command environ args (env_default env) c = refl
with_args-on_command environ args (append_env_default env) c = refl
with_args-on_command environ args (dir_default dir) c = refl
with_args-on_command environ args (ok_codes_default codes) c = refl

command_of-on_command_all :
    (environ args : List Bytes) (ds : List Default) (c : CliClient)
    → command_of args (with_defaults environ ds c)
      ≡ on_command_all environ ds (with_args args c.base)
unfolding command_of with_default
command_of-on_command_all environ args [] c = refl
command_of-on_command_all environ args (d ∷ ds) c =
    command_of-on_command_all environ args ds (with_default environ d c)
    ∙ ap (on_command_all environ ds) (with_args-on_command environ args d c.base)

-- A client's command is the one that is built directly: its program with the call's arguments, on
-- which the client's defaults are then set in the same order.
pub command_of-command :
    (environ : List Bytes) (program : Bytes) (ds : List Default) (args : List Bytes)
    → command_of args (with_defaults environ ds (new_client program))
      ≡ on_command_all environ ds (command program args)
unfolding new_client with_args command
command_of-command environ program ds args =
    command_of-on_command_all environ args ds (new_client program)
