-- ===== src/Command/Builders.antt =====
-- command.go: `Cmd`, `clone` and the builders over Go's slices. The arguments and the environment are
-- slices that several commands could share; what no builder changes in place (`okCodes` and
-- `stdinBytes` among it) is a value.
pub mod Clones
pub mod Views
pub mod Branches
use processkit_go.Prelude.{
  ℤ, ℕ, suc, Bool, Option, none, some, List, [], ◌∷◌, ◌++◌, Bytes, get_elem?,
}
use processkit_go.Errors.{Error}
use processkit_go.Result.{Reader}
use processkit_go.Command.{
  Cmd, with_args, with_dir, with_env, append_env, with_timeout, with_ok_codes, with_stdin,
  with_stdin_bytes, with_unchecked_in_pipe, with_retry,
}
use processkit_go.Command.Slices.{Slice, Heap, view, append, empty}

-- `fields` holds all but the slices; its own arguments and environment are not read.
pub record CmdStruct : Type 0 where
  pub fields : Cmd
  pub args : Option Slice
  pub env : Option Slice

-- The environment that a slice stands for: nil inherits.
abbrev pub view_env : Option Slice → Heap → Option (List Bytes)
view_env none h = none
view_env (some s) h = some (view (some s) h)

-- The command that a struct describes.
abbrev pub described : CmdStruct → Heap → Cmd
described c h = record c.fields { args = view c.args h; env = view_env c.env h }

-- The calls of the builders.
pub data Change : Type 0 where
  args_added env_set : List Bytes → Change
  -- With what `os.Environ()` returns, a new slice at each call.
  env_added : List Bytes → List Bytes → Change
  dir_set : Bytes → Change
  timeout_set : ℤ → Change
  ok_codes_set : List ℤ → Change
  stdin_set : Option Reader → Change
  stdin_bytes_set : Bytes → Change
  unchecked_set : Change
  retry_set : ℤ → ℤ → Option (Error → Bool) → Change

-- The builders that set a field of the clone.
abbrev pub set_field : Change → Cmd → Cmd
set_field (dir_set dir) = with_dir dir
set_field (timeout_set d) = with_timeout d
set_field (ok_codes_set codes) = with_ok_codes codes
set_field (stdin_set r) = with_stdin r
set_field (stdin_bytes_set b) = with_stdin_bytes b
set_field unchecked_set = with_unchecked_in_pipe
set_field (retry_set n d retry_if) = with_retry n d retry_if
set_field (args_added xs) = λ c. c
set_field (env_set xs) = λ c. c
set_field (env_added environ xs) = λ c. c

-- The builders as Command models them.
abbrev pub changed : Change → Cmd → Cmd
changed (args_added xs) = with_args xs
changed (env_set xs) = with_env xs
changed (env_added environ xs) = append_env environ xs
changed (dir_set dir) = with_dir dir
changed (timeout_set d) = with_timeout d
changed (ok_codes_set codes) = with_ok_codes codes
changed (stdin_set r) = with_stdin r
changed (stdin_bytes_set b) = with_stdin_bytes b
changed unchecked_set = with_unchecked_in_pipe
changed (retry_set n d retry_if) = with_retry n d retry_if

module _ (spare : ℕ → ℕ) where
  -- `append([]string{}, xs...)`.
  unfoldable pub copy_of : List Bytes → Heap → Option Slice × Heap
  copy_of xs h = let (s, h') = empty spare h in append spare s xs h'

  -- `cloneEnv`.
  unfoldable pub clone_env : Option Slice → Heap → Option Slice × Heap
  clone_env none h = (none, h)
  clone_env (some s) h = copy_of (view (some s) h) h

  -- `clone`.
  unfoldable pub clone : CmdStruct → Heap → CmdStruct × Heap
  clone c h =
      let (args, h₁) = append spare none (view c.args h) h in
      let (env, h₂) = clone_env c.env h₁ in (record c { args = args; env = env }, h₂)

  -- `AppendEnv`, on the clone's environment.
  unfoldable pub extend_env : List Bytes → List Bytes → Option Slice → Heap → Option Slice × Heap
  extend_env environ xs none h = let (s, h') = copy_of environ h in append spare s xs h'
  extend_env environ xs (some s) h = append spare (some s) xs h

  -- What a builder does to its clone.
  unfoldable pub edit : Change → CmdStruct → Heap → CmdStruct × Heap
  edit (args_added xs) c h =
      let (args, h') = append spare c.args xs h in (record c { args = args }, h')
  edit (env_set xs) c h = let (env, h') = copy_of xs h in (record c { env = env }, h')
  edit (env_added environ xs) c h =
      let (env, h') = extend_env environ xs c.env h in (record c { env = env }, h')
  edit (dir_set dir) c h = (record c { fields = set_field (dir_set dir) c.fields }, h)
  edit (timeout_set d) c h = (record c { fields = set_field (timeout_set d) c.fields }, h)
  edit (ok_codes_set codes) c h = (record c { fields = set_field (ok_codes_set codes) c.fields }, h)
  edit (stdin_set r) c h = (record c { fields = set_field (stdin_set r) c.fields }, h)
  edit (stdin_bytes_set b) c h = (record c { fields = set_field (stdin_bytes_set b) c.fields }, h)
  edit unchecked_set c h = (record c { fields = set_field unchecked_set c.fields }, h)
  edit (retry_set n d retry_if) c h =
      (record c { fields = set_field (retry_set n d retry_if) c.fields }, h)

  -- A builder.
  unfoldable pub build : Change → CmdStruct → Heap → CmdStruct × Heap
  build change c h = let (copy, h') = clone c h in edit change copy h'

  -- A program that builds commands: each step branches off one that was built before.
  unfoldable pub build_from :
      Option CmdStruct → Change → List CmdStruct → Heap → List CmdStruct × Heap
  build_from none change cs h = (cs, h)
  build_from (some c) change cs h = let (c', h') = build change c h in (cs ++ c' ∷ [], h')

  unfoldable pub build_all : List (ℕ × Change) → List CmdStruct → Heap → List CmdStruct × Heap
  build_all [] cs h = (cs, h)
  build_all ((i, change) ∷ rest) cs h =
      let (cs', h') = build_from (get_elem? cs i) change cs h in build_all rest cs' h'
