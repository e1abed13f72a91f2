-- ===== src/Testkit/Cassette/Slots.antt =====
-- The slots of processkittest/cassette.go: what is left to play for each key.
use processkit_go.Prelude.{
  ℕ, zero, suc, ◌≤◌, ◌<◌, true, false, Option, none, some, List, [], ◌∷◌, ◌++◌, append-nil,
  append_assoc, ◌≡◌, refl, sym, ap, ◌∙◌, arith, length, length-append, drop, get_or, if◌then◌else◌,
  Bool-cases, inl, inr, subst,
}
use processkit_go.Errors.{ok}
use processkit_go.Testkit.Cassette.{
  Entry, Key, key_of, key_eq, ReplaySlot, Slots, put, add_entry, load_entries, validate_outcome,
}
use processkit_go.Testkit.Cassette.Entries.{key_eq_refl, key_eq_sound}

abbrev pub entry_key : Entry → Key
entry_key e = key_of e.program e.args e.dir

-- The entries of a key, in order.
abbrev pub only : Key → List Entry → List Entry
only k [] = []
only k (e ∷ es) = let rest = only k es in if key_eq (entry_key e) k then e ∷ rest else rest

-- The slot has these entries left.
pub data Holds : Option ReplaySlot → List Entry → Type 0 where
  absent : Holds none []
  present :
      (s : ReplaySlot) {es : List Entry}
      → s.next ≤ length s.entries
      → drop s.next s.entries ≡ es
      → Holds (some s) es

abbrev pub HoldsAll : Slots → List Entry → Type 0
HoldsAll slots es = (k : Key) → Holds (slots k) (only k es)

drop-append :
    (n : ℕ) (xs : List Entry) (e : Entry)
    → n ≤ length xs
    → drop n (xs ++ e ∷ []) ≡ drop n xs ++ e ∷ []
drop-append zero xs e h = refl
drop-append (suc n) [] e h = absurd (omega arith)
drop-append (suc n) (x ∷ xs) e h = drop-append n xs e (omega arith)

pub drop-cons :
    (n : ℕ) (xs : List Entry) (d e : Entry) (es : List Entry)
    → drop n xs ≡ e ∷ es
    → (n < length xs) × (get_or xs n d ≡ e) × (drop (suc n) xs ≡ es)
drop-cons zero [] d e es h = cc
drop-cons zero (x ∷ xs) d e es h = (omega arith, cc, cc)
drop-cons (suc n) [] d e es h = cc
drop-cons (suc n) (x ∷ xs) d e es h =
    let (low, at, rest) = drop-cons n xs d e es h in (omega arith, at, rest)

only-append : (k : Key) (xs ys : List Entry) → only k (xs ++ ys) ≡ only k xs ++ only k ys
only-append k [] ys = refl
only-append k (x ∷ xs) ys = ground (arith, only-append k xs ys)

only-last :
    (k : Key) (es : List Entry) (e : Entry)
    → only k (es ++ e ∷ []) ≡ only k es ++ (if key_eq (entry_key e) k then e ∷ [] else [])
only-last k es e = only-append k es (e ∷ [])

put-same :
    (k j : Key) (s : ReplaySlot) (slots : Slots) → key_eq k j ≡ true → put k s slots j ≡ some s
unfolding put
put-same k j s slots e = rw (e, put)

put-other :
    (k j : Key) (s : ReplaySlot) (slots : Slots) → key_eq k j ≡ false → put k s slots j ≡ slots j
unfolding put
put-other k j s slots e = rw (e, put)

-- The other keys keep what they have, and the slot that is put holds what it is to hold.
pub Holds-put :
    (k : Key) (s : ReplaySlot) (slots : Slots) (old new : List Entry)
    → ((j : Key) → key_eq k j ≡ false → Holds (slots j) (only j old))
    → ((j : Key) → key_eq k j ≡ false → only j new ≡ only j old)
    → Holds (some s) (only k new)
    → HoldsAll (put k s slots) new
Holds-put k s slots old new others same here j = elim (Bool-cases (key_eq k j)) [
  | inl e ↦
      rw (put-same k j s slots e)
        (subst (λ i. Holds (some s) (only i new)) (key_eq_sound k j e) here)
  | inr e ↦ rw (put-other k j s slots e, same j e) (others j e)
]

add_entry-put :
    (e : Entry) (slots : Slots) (l : List Entry)
    → Holds (slots (entry_key e)) l
    → (s : ReplaySlot) × (add_entry e slots ≡ put (entry_key e) s slots)
      × Holds (some s) (l ++ e ∷ [])
unfolding add_entry
add_entry-put e slots l h = go (slots (entry_key e)) l refl h
  where
    go :
        (o : Option ReplaySlot) (l' : List Entry)
        → slots (entry_key e) ≡ o
        → Holds o l'
        → (s : ReplaySlot) × (add_entry e slots ≡ put (entry_key e) s slots)
          × Holds (some s) (l' ++ e ∷ [])
    go none l' eq absent =
        (record { entries = e ∷ []; next = 0 }, rw (eq, add_entry), present _ (omega arith) refl)
    go (some s) l' eq (present _ low left) = (
      record s { entries = s.entries ++ e ∷ [] },
      rw (eq, add_entry),
      present _ (omega (arith, length-append s.entries (e ∷ [])))
          (drop-append s.next s.entries e low ∙ ap (λ t. t ++ e ∷ []) left),
    )

-- An entry that is added is the last one of its key.
Holds-add :
    (e : Entry) (slots : Slots) (es : List Entry)
    → HoldsAll slots es
    → HoldsAll (add_entry e slots) (es ++ e ∷ [])
Holds-add e slots es h =
    let (s, put_there, holds) = add_entry-put e slots (only (entry_key e) es) (h (entry_key e)) in
    rw put_there (
      Holds-put (entry_key e) s slots es (es ++ e ∷ []) (λ j _. h j)
        (λ j other. only-last j es e ∙ rw other (append-nil (only j es)))
        (subst (Holds (some s))
          (sym (only-last (entry_key e) es e ∙ rw (key_eq_refl (entry_key e)) refl)) holds))

abbrev pub AllValid : List Entry → Type 0
AllValid [] = Unit
AllValid (e ∷ es) = (validate_outcome e ≡ true) × AllValid es

-- Loading valid entries succeeds, and each key's slot has that key's entries left, in order.
pub load_entries-Holds :
    (es : List Entry) (slots : Slots) (before : List Entry)
    → AllValid es
    → HoldsAll slots before
    → (slots' : Slots) × (load_entries es slots ≡ ok slots') × HoldsAll slots' (before ++ es)
unfolding load_entries
load_entries-Holds [] slots before v h = (slots, refl, rw (append-nil before) h)
load_entries-Holds (e ∷ es) slots before v h =
    let (slots', loaded, holds) =
      load_entries-Holds es (add_entry e slots) (before ++ e ∷ []) v.1
        (Holds-add e slots before h) in
    (slots', rw (v.0, load_entries) loaded, rw (append_assoc before (e ∷ []) es) at holds)
