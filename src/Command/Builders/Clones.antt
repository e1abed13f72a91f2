-- ===== src/Command/Builders/Clones.antt =====
-- `clone` of command.go: the clone describes the same command, and its slices are its own.
use processkit_go.Prelude.{
  ℕ, true, Option, none, some, is_some, List, [], ◌++◌, Bytes, ◌≡◌, refl, ap, ◌∙◌,
}
use processkit_go.Command.Slices.{
  Slice, Heap, view, Valid, Apart, Apart-sym, Kept, Kept-trans, append, empty, Appended,
  append-Appended, empty-Appended, Appended-then, extend-is_some,
}
use processkit_go.Command.Builders.{CmdStruct, view_env, described, copy_of, clone_env, clone}

abbrev pub CmdValid : CmdStruct → Heap → Type 0
CmdValid c h = Valid c.args h × Valid c.env h

pub view_env-Kept : (t : Option Slice) (h h' : Heap) → Kept t h h' → view_env t h' ≡ view_env t h
view_env-Kept none h h' k = refl
view_env-Kept (some s) h h' k = ap some k.same

pub view_env-some :
    (t : Option Slice) (h : Heap) {xs : List Bytes}
    → is_some t ≡ true
    → view t h ≡ xs
    → view_env t h ≡ some xs
view_env-some none h e f = absurd (cc)
view_env-some (some s) h e f = ap some f

pub described-Kept :
    (c : CmdStruct) (h h' : Heap)
    → Kept c.args h h'
    → Kept c.env h h'
    → described c h' ≡ described c h
described-Kept c h h' k l =
    λ i. record c.fields { args = k.same i; env = view_env-Kept c.env h h' l i }

module _ (spare : ℕ → ℕ) where
  -- An environment that shows these strings, and is not nil.
  pub record Environment (s : Option Slice) (xs : List Bytes) (h : Heap) (r : Option Slice × Heap)
      : Type 0 where
    pub appended : Appended spare s xs h r
    pub not_nil : is_some r.0 ≡ true

  pub extend-Environment :
      (s : Slice) (xs : List Bytes) (h : Heap)
      → Valid (some s) h
      → Environment (some s) xs h (append spare (some s) xs h)
  unfolding append
  extend-Environment s xs h v = record {
    appended = append-Appended spare (some s) xs h v;
    not_nil = extend-is_some spare s xs h;
  }

  pub copy_of-Environment :
      (xs : List Bytes) (h : Heap) → Environment none xs h (copy_of spare xs h)
  unfolding copy_of empty
  copy_of-Environment xs h =
      let e = empty-Appended spare h in
      let a = extend-Environment _ xs (empty spare h).1 e.valid in
      record {
        appended = Appended-then spare none [] xs h (empty spare h) _ e a.appended;
        not_nil = a.not_nil;
      }

  pub append-Environment :
      (s : Option Slice) (xs ys : List Bytes) (h : Heap) (r : Option Slice × Heap)
      → Environment s xs h r
      → Environment s (xs ++ ys) h (append spare r.0 ys r.1)
  append-Environment s xs ys h (none, h') e = absurd (cc e.not_nil)
  append-Environment s xs ys h (some t, h') e =
      let a = extend-Environment t ys h' e.appended.valid in
      record {
        appended = Appended-then spare s xs ys h (some t, h') _ e.appended a.appended;
        not_nil = a.not_nil;
      }

  -- What a clone is: a copy whose slices are its own.
  pub record Cloned (c : CmdStruct) (h : Heap) (r : CmdStruct × Heap) : Type 0 where
    pub valid : CmdValid r.0 r.1
    pub same : described r.0 r.1 ≡ described c h
    pub apart : Apart r.0.args r.0.env
    pub keeps : (t : Option Slice) → Valid t h → Kept t h r.1
    pub own : (t : Option Slice) → Valid t h → Apart r.0.args t × Apart r.0.env t

  pub record EnvCloned (env : Option Slice) (h : Heap) (r : Option Slice × Heap) : Type 0 where
    pub valid : Valid r.0 r.1
    pub same : view_env r.0 r.1 ≡ view_env env h
    pub keeps : (t : Option Slice) → Valid t h → Kept t h r.1
    pub own : (t : Option Slice) → Valid t h → Apart r.0 t

  clone_env-EnvCloned : (env : Option Slice) (h : Heap) → EnvCloned env h (clone_env spare env h)
  unfolding clone_env
  clone_env-EnvCloned none h = record {
    valid = tt;
    same = refl;
    keeps = λ t v. record { valid = v; same = refl };
    own = λ t v. tt;
  }
  clone_env-EnvCloned (some s) h =
      let e = copy_of-Environment (view (some s) h) h in
      record {
        valid = e.appended.valid;
        same = view_env-some _ _ e.not_nil e.appended.shows;
        keeps = λ t v. e.appended.keeps t v tt;
        own = λ t v. e.appended.apart t v tt;
      }

  pub clone-Cloned : (c : CmdStruct) (h : Heap) → CmdValid c h → Cloned c h (clone spare c h)
  unfolding clone
  clone-Cloned c h (v, w) =
      let a = append-Appended spare none (view c.args h) h tt in
      let h₁ = (append spare none (view c.args h) h).1 in
      let e = clone_env-EnvCloned c.env h₁ in
      let args = e.keeps _ a.valid in
      record {
        valid = (args.valid, e.valid);
        same = λ i. record c.fields {
          args = (args.same ∙ a.shows) i;
          env = (e.same ∙ view_env-Kept c.env h h₁ (a.keeps c.env w tt)) i;
        };
        apart = Apart-sym _ _ (e.own _ a.valid);
        keeps = λ t u. (let k = a.keeps t u tt in Kept-trans t h h₁ _ k (e.keeps t k.valid));
        own = λ t u. (a.apart t u tt, e.own t (a.keeps t u tt).valid);
      }
