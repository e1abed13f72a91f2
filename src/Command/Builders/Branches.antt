-- ===== src/Command/Builders/Branches.antt =====
-- A program that branches commands off one another (command.go) sees values that never change.
use processkit_go.Prelude.{
  ℕ, zero, suc, Option, none, some, List, [], ◌∷◌, ◌++◌, ◌≡◌, refl, ap, ◌∙◌, All, All-append,
  get_elem?,
}
use processkit_go.Command.{Cmd}
use processkit_go.Command.Slices.{Slice, Heap, Valid, Kept}
use processkit_go.Command.Builders.{
  CmdStruct, described, Change, changed, build, build_from, build_all,
}
use processkit_go.Command.Builders.Clones.{CmdValid, described-Kept}
use processkit_go.Command.Builders.Views.{build-Built}

-- The same program over values.
abbrev pub change_from : Option Cmd → Change → List Cmd → List Cmd
change_from none change cs = cs
change_from (some c) change cs = cs ++ changed change c ∷ []

abbrev pub change_all : List (ℕ × Change) → List Cmd → List Cmd
change_all [] cs = cs
change_all ((i, change) ∷ rest) cs = change_all rest (change_from (get_elem? cs i) change cs)

abbrev pub described_all : List CmdStruct → Heap → List Cmd
described_all [] h = []
described_all (c ∷ cs) h = described c h ∷ described_all cs h

abbrev pub AllValid : List CmdStruct → Heap → Type 0
AllValid cs h = All (λ c. CmdValid c h) cs

-- What a step leaves of the commands that were there.
all-Kept :
    (cs : List CmdStruct) (h h' : Heap)
    → AllValid cs h
    → ((t : Option Slice) → Valid t h → Kept t h h')
    → AllValid cs h' × (described_all cs h' ≡ described_all cs h)
all-Kept [] h h' v keeps = (tt, refl)
all-Kept (c ∷ cs) h h' ((v, w), vs) keeps =
    let args = keeps c.args v in
    let env = keeps c.env w in
    let (valid, same) = all-Kept cs h h' vs keeps in
    (((args.valid, env.valid), valid), λ i. described-Kept c h h' args env i ∷ same i)

described_all-append :
    (cs ds : List CmdStruct) (h : Heap)
    → described_all (cs ++ ds) h ≡ described_all cs h ++ described_all ds h
described_all-append [] ds h = refl
described_all-append (c ∷ cs) ds h = ap (λ l. described c h ∷ l) (described_all-append cs ds h)

-- A command at an index, as a struct and as a value.
data Chosen (h : Heap) : Option CmdStruct → Option Cmd → Type 0 where
  absent : Chosen h none none
  present : (c : CmdStruct) → CmdValid c h → Chosen h (some c) (some (described c h))

chosen :
    (cs : List CmdStruct) (i : ℕ) (h : Heap)
    → AllValid cs h
    → Chosen h (get_elem? cs i) (get_elem? (described_all cs h) i)
chosen [] i h v = absent
chosen (c ∷ cs) zero h (v, vs) = present c v
chosen (c ∷ cs) (suc i) h (v, vs) = chosen cs i h vs

module _ (spare : ℕ → ℕ) where
  build_from-described :
      (c : Option CmdStruct) (d : Option Cmd) (change : Change) (cs : List CmdStruct) (h : Heap)
      → Chosen h c d
      → AllValid cs h
      → (let r = build_from spare c change cs h in
          AllValid r.0 r.1 × (described_all r.0 r.1 ≡ change_from d change (described_all cs h)))
  unfolding build_from
  build_from-described _ _ change cs h absent vs = (vs, refl)
  build_from-described _ _ change cs h (present c v) vs =
      let (c', h') = build spare change c h in
      let b = build-Built spare change c h v in
      let (valid, same) = all-Kept cs h h' vs b.keeps in
      (
        All-append _ cs (c' ∷ []) valid (b.valid, tt),
        described_all-append cs (c' ∷ []) h' ∙ (λ i. same i ++ b.shows i ∷ []),
      )

  -- The builders are copy-on-write: a program that makes commands by calling builders on commands it
  -- has, in any order and however often on the same one, sees for every command, early or late, what it
  -- would see if commands were values, although the slices of Go share arrays that `append` writes to,
  -- whatever room the runtime leaves in a new array. The commands that it starts with lie in their arrays.
  pub build_all-copy_on_write :
      (steps : List (ℕ × Change)) (cs : List CmdStruct) (h : Heap)
      → AllValid cs h
      → (let r = build_all spare steps cs h in
          described_all r.0 r.1 ≡ change_all steps (described_all cs h))
  unfolding build_all
  build_all-copy_on_write [] cs h vs = refl
  build_all-copy_on_write ((i, change) ∷ rest) cs h vs =
      let r = build_from spare (get_elem? cs i) change cs h in
      let (valid, same) =
        build_from-described (get_elem? cs i) _ change cs h (chosen cs i h vs) vs in
      build_all-copy_on_write rest r.0 r.1 valid ∙ ap (change_all rest) same
