-- ===== src/Command/Builders/Views.antt =====
-- The builders of command.go over shared slices do what they do over values.
use processkit_go.Prelude.{ℕ, Option, none, some, List, ◌++◌, Bytes, ◌≡◌, refl, ap, ◌∙◌}
use processkit_go.Command.{
  Cmd, inherited, with_args, with_dir, with_env, append_env, with_timeout, with_ok_codes,
  with_stdin, with_stdin_bytes, with_unchecked_in_pipe, with_retry,
}
use processkit_go.Command.Slices.{
  Slice, Heap, Valid, Apart, Apart-sym, Kept, Kept-trans, append-Appended,
}
use processkit_go.Command.Builders.{
  CmdStruct, view_env, described, Change, args_added, env_set, env_added, dir_set, timeout_set,
  ok_codes_set, stdin_set, stdin_bytes_set, unchecked_set, retry_set, changed, clone, extend_env,
  edit, build,
}
use processkit_go.Command.Builders.Clones.{
  CmdValid, view_env-Kept, view_env-some, extend-Environment, copy_of-Environment,
  append-Environment, clone-Cloned,
}

module _ (spare : ℕ → ℕ) where
  -- What a builder leaves: the changed command, and every slice that its clone shares no array with.
  record Edited (change : Change) (c : CmdStruct) (h : Heap) (r : CmdStruct × Heap) : Type 0 where
    pub valid : CmdValid r.0 r.1
    pub shows : described r.0 r.1 ≡ changed change (described c h)
    pub keeps : (t : Option Slice) → Valid t h → Apart c.args t → Apart c.env t → Kept t h r.1

  args-Edited :
      (xs : List Bytes) (c : CmdStruct) (h : Heap)
      → CmdValid c h
      → Apart c.args c.env
      → Edited (args_added xs) c h (edit spare (args_added xs) c h)
  unfolding edit with_args
  args-Edited xs c h (v, w) d =
      let a = append-Appended spare c.args xs h v in
      let k = a.keeps c.env w d in
      record {
        valid = (a.valid, k.valid);
        shows = λ i. record c.fields { args = a.shows i; env = view_env-Kept c.env h _ k i };
        keeps = λ t u p q. a.keeps t u p;
      }

  record Extended (environ xs : List Bytes) (env : Option Slice) (h : Heap)
      (r : Option Slice × Heap) : Type 0 where
    pub valid : Valid r.0 r.1
    pub shows : view_env r.0 r.1 ≡ some (inherited (view_env env h) environ ++ xs)
    pub keeps : (t : Option Slice) → Valid t h → Apart env t → Kept t h r.1

  extend_env-Extended :
      (environ xs : List Bytes) (env : Option Slice) (h : Heap)
      → Valid env h
      → Extended environ xs env h (extend_env spare environ xs env h)
  unfolding extend_env
  extend_env-Extended environ xs none h v =
      let e = append-Environment spare none environ xs h _ (copy_of-Environment spare environ h) in
      record {
        valid = e.appended.valid;
        shows = view_env-some _ _ e.not_nil e.appended.shows;
        keeps = λ t u d. e.appended.keeps t u tt;
      }
  extend_env-Extended environ xs (some s) h v =
      let e = extend-Environment spare s xs h v in
      record {
        valid = e.appended.valid;
        shows = view_env-some _ _ e.not_nil e.appended.shows;
        keeps = e.appended.keeps;
      }

  added-Edited :
      (environ xs : List Bytes) (c : CmdStruct) (h : Heap)
      → CmdValid c h
      → Apart c.args c.env
      → Edited (env_added environ xs) c h (edit spare (env_added environ xs) c h)
  unfolding edit append_env
  added-Edited environ xs c h (v, w) d =
      let e = extend_env-Extended environ xs c.env h w in
      let k = e.keeps c.args v (Apart-sym c.args c.env d) in
      record {
        valid = (k.valid, e.valid);
        shows = λ i. record c.fields { args = k.same i; env = e.shows i };
        keeps = λ t u p q. e.keeps t u q;
      }

  env-Edited :
      (xs : List Bytes) (c : CmdStruct) (h : Heap)
      → CmdValid c h
      → Edited (env_set xs) c h (edit spare (env_set xs) c h)
  unfolding edit with_env
  env-Edited xs c h (v, w) =
      let e = copy_of-Environment spare xs h in
      let k = e.appended.keeps c.args v tt in
      record {
        valid = (k.valid, e.appended.valid);
        shows = λ i. record c.fields {
          args = k.same i;
          env = view_env-some _ _ e.not_nil e.appended.shows i;
        };
        keeps = λ t u p q. e.appended.keeps t u tt;
      }

  -- A builder that sets a field leaves the heap as it is.
  field-Edited :
      (change : Change) (c : CmdStruct) (h : Heap) (fields : Cmd)
      → CmdValid c h
      → described (record c { fields = fields }) h ≡ changed change (described c h)
      → Edited change c h (record c { fields = fields }, h)
  field-Edited change c h fields v e = record {
    valid = v;
    shows = e;
    keeps = λ t u p q. record { valid = u; same = refl };
  }

  edit-Edited :
      (change : Change) (c : CmdStruct) (h : Heap)
      → CmdValid c h
      → Apart c.args c.env
      → Edited change c h (edit spare change c h)
  unfolding edit with_dir with_timeout with_ok_codes with_stdin with_stdin_bytes
      with_unchecked_in_pipe with_retry
  edit-Edited (args_added xs) c h v d = args-Edited xs c h v d
  edit-Edited (env_set xs) c h v d = env-Edited xs c h v
  edit-Edited (env_added environ xs) c h v d = added-Edited environ xs c h v d
  edit-Edited (dir_set dir) c h v d = field-Edited (dir_set dir) c h _ v refl
  edit-Edited (timeout_set t) c h v d = field-Edited (timeout_set t) c h _ v refl
  edit-Edited (ok_codes_set codes) c h v d = field-Edited (ok_codes_set codes) c h _ v refl
  edit-Edited (stdin_set r) c h v d = field-Edited (stdin_set r) c h _ v refl
  edit-Edited (stdin_bytes_set b) c h v d = field-Edited (stdin_bytes_set b) c h _ v refl
  edit-Edited unchecked_set c h v d = field-Edited unchecked_set c h _ v refl
  edit-Edited (retry_set n t f) c h v d = field-Edited (retry_set n t f) c h _ v refl

  -- A builder: the new command is the changed one, and nothing that could be seen before has changed.
  pub record Built (change : Change) (c : CmdStruct) (h : Heap) (r : CmdStruct × Heap)
      : Type 0 where
    pub valid : CmdValid r.0 r.1
    pub shows : described r.0 r.1 ≡ changed change (described c h)
    pub keeps : (t : Option Slice) → Valid t h → Kept t h r.1

  pub build-Built :
      (change : Change) (c : CmdStruct) (h : Heap)
      → CmdValid c h
      → Built change c h (build spare change c h)
  unfolding build
  build-Built change c h v =
      let k = clone-Cloned spare c h v in
      let h₁ = (clone spare c h).1 in
      let e = edit-Edited change (clone spare c h).0 h₁ k.valid k.apart in
      record {
        valid = e.valid;
        shows = e.shows ∙ ap (changed change) k.same;
        keeps = λ t u.
            (let before = k.keeps t u in
              Kept-trans t h h₁ _ before (e.keeps t before.valid (k.own t u).0 (k.own t u).1));
      }
