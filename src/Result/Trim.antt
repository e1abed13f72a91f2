-- ===== src/Result/Trim.antt =====
-- What `strings.TrimRight` leaves, for the verb Run of result.go.
use processkit_go.Prelude.{
  ℕ, Bool, true, false, Option, none, some, [], ◌∷◌, ◌++◌, Bytes, All, ◌≡◌, refl, ap, Bool-cases,
  inl, inr,
}
use processkit_go.Result.{trim_right}

abbrev pub last? : Bytes → Option ℕ
last? [] = none
last? (c ∷ []) = some c
last? (c ∷ d ∷ s) = last? (d ∷ s)

abbrev pub LastKept : (ℕ → Bool) → Option ℕ → Type 0
LastKept cut none = Unit
LastKept cut (some c) = cut c ≡ false

-- What the trimming of a tail says of the trimming of the whole.
grow :
    (cut : ℕ → Bool) (c : ℕ) (s kept tail : Bytes)
    → trim_right cut s ≡ kept
    → s ≡ kept ++ tail
    → All (λ d. cut d ≡ true) tail
    → LastKept cut (last? kept)
    → (rest : Bytes) × (c ∷ s ≡ trim_right cut (c ∷ s) ++ rest)
      × All (λ d. cut d ≡ true) rest
      × LastKept cut (last? (trim_right cut (c ∷ s)))
unfolding trim_right
grow cut c s [] tail e split dropped kept_end = elim (Bool-cases (cut c)) [
  | inl yes' ↦ rw (e, yes') (c ∷ tail, ap (λ l. c ∷ l) split, (yes', dropped), tt)
  | inr no' ↦ rw (e, no') (tail, ap (λ l. c ∷ l) split, dropped, no')
]
grow cut c s (d ∷ kept) tail e split dropped kept_end =
    rw e (tail, ap (λ l. c ∷ l) split, dropped, kept_end)

-- The text is what is kept followed by what is cut: every byte cut off is in the set, and the last
-- byte kept is not.
pub trim_right_lem :
    (cut : ℕ → Bool) (s : Bytes)
    → (rest : Bytes) × (s ≡ trim_right cut s ++ rest)
      × All (λ c. cut c ≡ true) rest
      × LastKept cut (last? (trim_right cut s))
trim_right_lem cut [] = unfold trim_right in ([], refl, tt, tt)
trim_right_lem cut (c ∷ s) =
    let ih = trim_right_lem cut s in grow cut c s (trim_right cut s) ih.0 refl ih.1 ih.2 ih.3
