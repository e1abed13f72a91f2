-- ===== src/Errors/Safe.antt =====
-- errors.go: what a rendering of child-controlled text cannot hold.
use processkit_go.Prelude.{
  arith, ℕ, ◌/◌, ◌%◌, ◌<◌, Bool, true, false, List, [], ◌∷◌, All, All-append, ◌≡◌, ◌≢◌, refl, ◌⊎◌,
  inl, inr, if◌then◌else◌,
}
use processkit_go.Errors.Render.{
  hex_digit, hex_2, hex_4, is_layout, is_control, is_bidi, escape, sanitize_runes,
}

-- A line feed, a tab, or a rune that is neither an ASCII control nor a directional control of U+200E,
-- U+200F, U+202A to U+202E and U+2066 to U+2069.
abbrev pub IsSafe : ℕ → Type 0
IsSafe r =
    ((r ≡ 10) ⊎ (r ≡ 9))
    ⊎ ((31 < r)
        × (r ≢ 127)
        × ((r < 8206) ⊎ ((8207 < r) × (r < 8234)) ⊎ ((8238 < r) × (r < 8294)) ⊎ (8297 < r)))

-- What `escape` writes has a property that printable ASCII has, and that the rune itself has where it
-- is a line feed or a tab, or neither a control nor a bidi control.
module _ (P : ℕ → Type 0) (printable : (c : ℕ) → 31 < c → c < 127 → P c) where
  hex_digit-All : (d : ℕ) → d < 16 → P (hex_digit d)
  hex_digit-All d h = printable (hex_digit d) (ground arith) (ground arith)

  hex_2-All : (r : ℕ) → All P (hex_2 r)
  hex_2-All r =
      (hex_digit-All (r / 16 % 16) (omega arith), (hex_digit-All (r % 16) (omega arith), tt))

  hex_4-All : (r : ℕ) → All P (hex_4 r)
  hex_4-All r = (
    hex_digit-All (r / 4096 % 16) (omega arith),
    (hex_digit-All (r / 256 % 16) (omega arith), hex_2-All r),
  )

  pub escape-All :
      (r : ℕ)
      → (is_layout r ≡ true → P r)
      → (is_control r ≡ false → is_bidi r ≡ false → P r)
      → All P (escape r)
  unfolding escape
  escape-All r layout plain = go (is_layout r) (is_control r) (is_bidi r) layout plain
    where
      go :
          (a b c : Bool)
          → (a ≡ true → P r)
          → (b ≡ false → c ≡ false → P r)
          → All P (
              if a
              then r ∷ []
              else if b
              then 92 ∷ 120 ∷ hex_2 r
              else if c
              then 92 ∷ 117 ∷ hex_4 r
              else r ∷ [])
      go true b c layout plain = (layout refl, tt)
      go false true c layout plain = (
        printable 92 (omega arith) (omega arith),
        (printable 120 (omega arith) (omega arith), hex_2-All r),
      )
      go false false true layout plain = (
        printable 92 (omega arith) (omega arith),
        (printable 117 (omega arith) (omega arith), hex_4-All r),
      )
      go false false false layout plain = (plain refl refl, tt)

printable-IsSafe : (c : ℕ) → 31 < c → c < 127 → IsSafe c
printable-IsSafe c low high = inr (low, ground arith, inl (omega arith))

escape-IsSafe : (r : ℕ) → All IsSafe (escape r)
unfolding is_layout is_control is_bidi
escape-IsSafe r =
    escape-All IsSafe printable-IsSafe r (λ layout. inl (ground arith))
      (λ control bidi. inr (ground arith, ground arith, ground arith))

pub sanitize_runes-IsSafe : (rs : List ℕ) → All IsSafe (sanitize_runes rs)
unfolding sanitize_runes
sanitize_runes-IsSafe [] = tt
sanitize_runes-IsSafe (r ∷ rs) =
    All-append IsSafe (escape r) (sanitize_runes rs) (escape-IsSafe r) (sanitize_runes-IsSafe rs)
