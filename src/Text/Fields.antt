-- ===== src/Text/Fields.antt =====
-- How `fields` and `after_last` read a text that was put together from words.
use processkit_go.Prelude.{
  ℕ, true, false, none, some, List, [], ◌∷◌, ◌++◌, Bytes, ◌≡◌, ◌≢◌, refl, ap, ◌∙◌, All,
  append_assoc, arith, append-nil,
}
use processkit_go.Text.{is_white, word, fields_from, fields, after_last, join}

-- Words separated by single spaces, each byte of which is no white space.
abbrev pub IsWord : Bytes → Type 0
IsWord [] = ⊥
IsWord (c ∷ s) = All (λ b. is_white b ≡ false) (c ∷ s)

fields_from-word :
    (acc w rest : Bytes)
    → All (λ b. is_white b ≡ false) w
    → fields_from acc (w ++ rest) ≡ fields_from (acc ++ w) rest
unfolding fields_from
fields_from-word acc [] rest h = rw (append-nil acc) refl
fields_from-word acc (c ∷ w) rest h =
    rw (h.0, fields_from)
      (fields_from-word (acc ++ c ∷ []) w rest h.1
        ∙ ap (λ a. fields_from a rest) (append_assoc acc (c ∷ []) w))

word-IsWord : (w : Bytes) → IsWord w → word w ≡ w ∷ []
word-IsWord [] h = absurd h
word-IsWord (c ∷ w) h = refl

IsWord-All : (w : Bytes) → IsWord w → All (λ b. is_white b ≡ false) w
IsWord-All [] h = tt
IsWord-All (c ∷ w) h = h

-- One word, then white space.
fields-word :
    (w : Bytes) (b : ℕ) (rest : Bytes)
    → IsWord w
    → is_white b ≡ true
    → fields_from [] (w ++ b ∷ rest) ≡ w ∷ fields_from [] rest
unfolding fields_from
fields-word w b rest h white =
    fields_from-word [] w (b ∷ rest) (IsWord-All w h)
    ∙ rw (white, fields_from) (ap (λ l. l ++ fields_from [] rest) (word-IsWord w h))

-- A line of words that single spaces separate.
pub fields-join : (ws : List Bytes) → All IsWord ws → fields (join (32 ∷ []) ws ++ 10 ∷ []) ≡ ws
unfolding fields join fields_from
fields-join [] h = refl
fields-join (w ∷ []) h = fields-word w 10 [] h.0 refl
fields-join (w ∷ v ∷ ws) h =
    ap (fields_from []) (append_assoc w (32 ∷ join (32 ∷ []) (v ∷ ws)) (10 ∷ []))
    ∙ (fields-word w 32 (join (32 ∷ []) (v ∷ ws) ++ 10 ∷ []) h.0 refl
        ∙ ap (λ l. w ∷ l) (fields-join (v ∷ ws) h.1))

after_last-none : (b : ℕ) (s : Bytes) → All (λ c. c ≢ b) s → after_last b s ≡ none
unfolding after_last
after_last-none b [] h = refl
after_last-none b (c ∷ s) h = rw (after_last-none b s h.1) (ground (arith, h.0))

pub after_last-append :
    (b : ℕ) (s rest : Bytes) → All (λ c. c ≢ b) rest → after_last b (s ++ b ∷ rest) ≡ some rest
unfolding after_last
after_last-append b [] rest h = rw (after_last-none b rest h) (ground arith)
after_last-append b (c ∷ s) rest h = rw (after_last-append b s rest h) refl

pub fields-space : (s : Bytes) → fields (32 ∷ s) ≡ fields s
unfolding fields fields_from
fields-space s = refl
