-- ===== src/Tests/Clients.antt =====
-- A client at concrete inputs (client.go).
use processkit_go.Prelude.{pos, some, List, [], ◌∷◌, codes, ◌≡◌, refl}
use processkit_go.Client.{
  new_client, command_of, with_defaults, Default, timeout_default, append_env_default,
}

abbrev defaults : List Default
defaults = timeout_default (pos 5000) ∷ append_env_default (codes "GIT_TERMINAL_PROMPT=0" ∷ []) ∷ []

-- The call's arguments, and the defaults of the client.
client_status :
    (command_of
      (codes "status" ∷ [])
      (with_defaults (codes "HOME=/root" ∷ []) defaults (new_client (codes "git")))).env
    ≡ some (codes "HOME=/root" ∷ codes "GIT_TERMINAL_PROMPT=0" ∷ [])
unfolding command_of with_defaults new_client processkit_go.Command.with_args
    processkit_go.Client.with_default processkit_go.Client.on_command
    processkit_go.Command.append_env processkit_go.Command.with_timeout
    processkit_go.Command.command
client_status = refl
