-- ===== src/Errors/Previews.antt =====
-- errors.go: how much of a captured stream an error shows.
use processkit_go.Prelude.{
  arith, ℕ, zero, suc, ◌≤◌, Bool, true, false, ◌++◌, Bytes, length, get_or, take, leb, ◌≡◌, refl,
  ◌⊎◌, inl, inr, if◌then◌else◌,
}
use processkit_go.Errors.Render.{rune_start, cut_back, preview, preview_limit, ellipsis}

cut_back-rune_start :
    (n : ℕ) (s : Bytes)
    → (cut_back n s ≤ n) × ((cut_back n s ≡ 0) ⊎ (rune_start (get_or s (cut_back n s) 0) ≡ true))
unfolding cut_back
cut_back-rune_start zero s = (omega arith, inl refl)
cut_back-rune_start (suc n) s = go (rune_start (get_or s (suc n) 0)) refl (cut_back-rune_start n s)
  where
    go :
        (b : Bool)
        → rune_start (get_or s (suc n) 0) ≡ b
        → (cut_back n s ≤ n)
          × ((cut_back n s ≡ 0) ⊎ (rune_start (get_or s (cut_back n s) 0) ≡ true))
        → ((if b then suc n else cut_back n s) ≤ suc n)
          × (((if b then suc n else cut_back n s) ≡ 0)
              ⊎ (rune_start (get_or s (if b then suc n else cut_back n s) 0) ≡ true))
    go true e earlier = (omega arith, inr e)
    go false e earlier = (omega (arith, earlier.0), earlier.1)

-- A preview is the text itself, where that has at most 200 bytes, or else a beginning of it of at most 200
-- bytes and "…"; the text is cut before a byte that starts a rune, or at its start.
pub preview-cut :
    (s : Bytes)
    → ((length s ≤ preview_limit) × (preview s ≡ s))
      ⊎ ((n : ℕ) × ((n ≤ preview_limit)
            × ((n ≡ 0) ⊎ (rune_start (get_or s n 0) ≡ true))
            × (preview s ≡ take n s ++ ellipsis)))
unfolding preview
preview-cut s = go (leb (length s) preview_limit) refl
  where
    go :
        (b : Bool)
        → leb (length s) preview_limit ≡ b
        → ((length s ≤ preview_limit)
            × ((if b then s else take (cut_back preview_limit s) s ++ ellipsis) ≡ s))
          ⊎ ((n : ℕ) × ((n ≤ preview_limit)
                × ((n ≡ 0) ⊎ (rune_start (get_or s n 0) ≡ true))
                × ((if b then s else take (cut_back preview_limit s) s ++ ellipsis)
                    ≡ take n s ++ ellipsis)))
    go true e = inl (ground arith, refl)
    go false e =
        let cut = cut_back-rune_start preview_limit s in
        inr (cut_back preview_limit s, (cut.0, cut.1, refl))
