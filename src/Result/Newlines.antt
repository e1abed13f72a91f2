-- ===== src/Result/Newlines.antt =====
-- `normalizeNewlines` of result.go: CRLF and lone CR become LF.
-- `strings.ReplaceAll` is modelled at the two patterns that the source replaces.
use processkit_go.Prelude.{
  ℕ, Bool, true, false, ◌&&◌, [], ◌∷◌, Bytes, ◌==◌, if◌then◌else◌, any, All, ◌∙◌, ◌≡◌, ◌≢◌, refl,
  sym, arith, Bool-cases, inl, inr,
}

abbrev pub cr : ℕ
cr = 13

abbrev pub lf : ℕ
lf = 10

-- `strings.ReplaceAll(s, "\r\n", "\n")`.
replace_crlf : Bytes → Bytes
replace_crlf [] = []
replace_crlf (c ∷ []) = c ∷ []
replace_crlf (c ∷ d ∷ s) = elim ((c == cr) && (d == lf)) [
  | true ↦ lf ∷ replace_crlf s
  | false ↦ c ∷ replace_crlf (d ∷ s)
]

-- `strings.ReplaceAll(s, "\r", "\n")`.
replace_cr : Bytes → Bytes
replace_cr [] = []
replace_cr (c ∷ s) = (if c == cr then lf else c) ∷ replace_cr s

unfoldable pub normalize_newlines : Bytes → Bytes
unfolding replace_crlf replace_cr
normalize_newlines s = if any (λ c. c == cr) s then replace_cr (replace_crlf s) else s

-- One pass that remembers whether the last byte was a CR: the LF of a CRLF is dropped.
unfoldable pub one_pass : Bool → Bytes → Bytes
one_pass after_cr [] = []
one_pass after_cr (c ∷ s) =
    let rest = one_pass (c == cr) s in
    if after_cr && (c == lf) then rest else (if c == cr then lf else c) ∷ rest

one_pass-no_cr : (s : Bytes) → any (λ c. c == cr) s ≡ false → one_pass false s ≡ s
unfolding one_pass
one_pass-no_cr [] h = refl
one_pass-no_cr (c ∷ s) h = ground (arith, one_pass-no_cr s)

replace_cr-crlf : (s : Bytes) → replace_cr (replace_crlf s) ≡ one_pass false s
unfolding replace_crlf replace_cr one_pass
replace_cr-crlf [] = refl
replace_cr-crlf (c ∷ []) = ground arith
replace_cr-crlf (c ∷ d ∷ s) = ground (arith, replace_cr-crlf s, replace_cr-crlf (d ∷ s))

-- Replacing twice, with the early exit for text that has no CR, is the one pass that turns CRLF
-- and a lone CR into LF.
pub normalize_newlines-one_pass : (s : Bytes) → normalize_newlines s ≡ one_pass false s
unfolding normalize_newlines
normalize_newlines-one_pass s = elim (Bool-cases (any (λ c. c == cr) s)) [
  | inl has ↦ rw has (replace_cr-crlf s)
  | inr lacks ↦ rw lacks (sym (one_pass-no_cr s lacks))
]

one_pass-no_cr_left : (after_cr : Bool) (s : Bytes) → All (λ c. c ≢ cr) (one_pass after_cr s)
unfolding one_pass
one_pass-no_cr_left after_cr [] = tt
one_pass-no_cr_left after_cr (c ∷ s) = ground (arith, one_pass-no_cr_left (c == cr) s)

-- Normalised text holds no CR.
pub normalize_newlines-no_cr : (s : Bytes) → All (λ c. c ≢ cr) (normalize_newlines s)
normalize_newlines-no_cr s = rw normalize_newlines-one_pass (one_pass-no_cr_left false s)

any-no_cr : (s : Bytes) → All (λ c. c ≢ cr) s → any (λ c. c == cr) s ≡ false
any-no_cr [] h = refl
any-no_cr (c ∷ s) h = ground (arith, any-no_cr s h.1)

-- Normalising a second time changes nothing.
pub normalize_newlines_idem :
    (s : Bytes) → normalize_newlines (normalize_newlines s) ≡ normalize_newlines s
normalize_newlines_idem s =
    normalize_newlines-one_pass (normalize_newlines s)
    ∙ one_pass-no_cr (normalize_newlines s) (any-no_cr _ (normalize_newlines-no_cr s))
