-- ===== src/Errors/Utf8.antt =====
-- errors.go: the bytes that `WriteRune` writes are read back as the runes, and what a sanitized text holds.
use processkit_go.Prelude.{
  arith, ℕ, zero, suc, ◌+◌, ◌/◌, ◌%◌, ◌<◌, ◌≤◌, ltb, Bool, true, false, List, [], ◌∷◌, ◌++◌, Bytes,
  length, drop, All, All-append, ◌≡◌, refl, ap, sym, subst, ◌∙◌, ◌⊎◌, inl, if◌then◌else◌,
  length-append,
}
use processkit_go.Errors.Render.{
  first_rune, runes, runes_within, encode, encode_all, sanitize, sanitize_runes, escape,
}
use processkit_go.Errors.Safe.{escape-All, IsSafe, sanitize_runes-IsSafe}

-- A code point that is no surrogate.
abbrev pub IsRune : ℕ → Type 0
IsRune r = (r < 55296) ⊎ ((57343 < r) × (r < 1114112))

-- The rune that starts each of the four forms, whatever follows.
one_byte : (r : ℕ) (t : Bytes) → r < 128 → first_rune (r ∷ t) ≡ (r, 1)
one_byte r t low = ground arith

two_bytes :
    (r : ℕ) (t : Bytes)
    → 127 < r
    → r < 2048
    → first_rune ((192 + r / 64) ∷ (128 + r % 64) ∷ t) ≡ (r, 2)
two_bytes r t low high = ground arith

three_bytes :
    (r : ℕ) (t : Bytes)
    → 2047 < r
    → r < 65536
    → IsRune r
    → first_rune ((224 + r / 4096) ∷ (128 + r / 64 % 64) ∷ (128 + r % 64) ∷ t) ≡ (r, 3)
three_bytes r t low high valid = ground arith

four_bytes :
    (r : ℕ) (t : Bytes)
    → 65535 < r
    → r < 1114112
    → first_rune
        ((240 + r / 262144) ∷ (128 + r / 4096 % 64) ∷ (128 + r / 64 % 64) ∷ (128 + r % 64) ∷ t)
      ≡ (r, 4)
four_bytes r t low high = ground arith

first_rune-IsRune : (s : Bytes) → IsRune (first_rune s).0
first_rune-IsRune s = ground arith

first_rune-encode :
    (r : ℕ) (t : Bytes) → IsRune r → first_rune (encode r ++ t) ≡ (r, length (encode r))
unfolding encode
first_rune-encode r t valid = go (ltb r 128) (ltb r 2048) (ltb r 65536) refl refl refl
  where
    bytes : Bool → Bool → Bool → Bytes
    bytes a b c =
        if a
        then r ∷ []
        else if b
        then (192 + r / 64) ∷ (128 + r % 64) ∷ []
        else if c
        then (224 + r / 4096) ∷ (128 + r / 64 % 64) ∷ (128 + r % 64) ∷ []
        else (240 + r / 262144) ∷ (128 + r / 4096 % 64) ∷ (128 + r / 64 % 64) ∷ (128 + r % 64) ∷ []

    go :
        (a b c : Bool)
        → ltb r 128 ≡ a
        → ltb r 2048 ≡ b
        → ltb r 65536 ≡ c
        → first_rune (bytes a b c ++ t) ≡ (r, length (bytes a b c))
    go true b c one two three = one_byte r t (ground arith)
    go false true c one two three = two_bytes r t (ground arith) (ground arith)
    go false false true one two three = three_bytes r t (ground arith) (ground arith) valid
    go false false false one two three = four_bytes r t (ground arith) (ground arith)

drop-append : (e t : Bytes) → drop (length e) (e ++ t) ≡ t
drop-append [] t = refl
drop-append (c ∷ e) t = drop-append e t

encode-nonempty : (r : ℕ) → 0 < length (encode r)
unfolding encode
encode-nonempty r = ground arith

runes_within-step :
    (fuel : ℕ) (s : Bytes)
    → 0 < length s
    → runes_within (suc fuel) s ≡ (first_rune s).0 ∷ runes_within fuel (drop (first_rune s).1 s)
unfolding runes_within
runes_within-step fuel [] h = absurd (omega arith)
runes_within-step fuel (c ∷ s) h = refl

-- What is written for runes is read back as those runes, with fuel for its bytes.
runes_within-encode_all :
    (rs : List ℕ) (fuel : ℕ)
    → All IsRune rs
    → length (encode_all rs) ≤ fuel
    → runes_within fuel (encode_all rs) ≡ rs
unfolding encode_all runes_within
runes_within-encode_all [] zero valid enough = refl
runes_within-encode_all [] (suc fuel) valid enough = refl
runes_within-encode_all (r ∷ rs) zero valid enough =
    absurd (omega (arith, encode-nonempty r, length-append (encode r) (encode_all rs), enough))
runes_within-encode_all (r ∷ rs) (suc fuel) valid enough =
    let long = length-append (encode r) (encode_all rs) in
    runes_within-step fuel (encode r ++ encode_all rs) (omega (arith, encode-nonempty r, long))
    ∙ ap (λ p. p.0 ∷ runes_within fuel (drop p.1 (encode r ++ encode_all rs)))
        (first_rune-encode r (encode_all rs) valid.0)
    ∙ ap (λ t. r ∷ t)
        (ap (runes_within fuel) (drop-append (encode r) (encode_all rs))
          ∙ runes_within-encode_all rs fuel valid.1
              (omega (arith, encode-nonempty r, long, enough)))

runes_within-IsRune : (fuel : ℕ) (s : Bytes) → All IsRune (runes_within fuel s)
unfolding runes_within
runes_within-IsRune zero s = tt
runes_within-IsRune (suc fuel) [] = tt
runes_within-IsRune (suc fuel) (c ∷ s) =
    (first_rune-IsRune (c ∷ s), runes_within-IsRune fuel (drop (first_rune (c ∷ s)).1 (c ∷ s)))

escape-IsRune : (r : ℕ) → IsRune r → All IsRune (escape r)
escape-IsRune r valid =
    escape-All IsRune (λ c low high. inl (omega arith)) r (λ layout. valid) (λ control bidi. valid)

sanitize_runes-IsRune : (rs : List ℕ) → All IsRune rs → All IsRune (sanitize_runes rs)
unfolding sanitize_runes
sanitize_runes-IsRune [] valid = tt
sanitize_runes-IsRune (r ∷ rs) valid =
    All-append IsRune (escape r) (sanitize_runes rs) (escape-IsRune r valid.0)
      (sanitize_runes-IsRune rs valid.1)

-- Whatever bytes a child prints, valid UTF-8 or not, the runes of the text that `sanitize` makes of them
-- hold no code below 32 but line feeds and tabs, no delete, and none of the directional marks U+200E and
-- U+200F, embeddings, overrides and isolates.
pub sanitize-IsSafe : (s : Bytes) → All IsSafe (runes (sanitize s))
unfolding sanitize runes
sanitize-IsSafe s =
    subst (All IsSafe)
      (sym (
        runes_within-encode_all (sanitize_runes (runes s)) _
          (sanitize_runes-IsRune (runes s) (runes_within-IsRune (length s) s)) (omega arith)))
      (sanitize_runes-IsSafe (runes s))
