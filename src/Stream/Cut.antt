-- ===== src/Stream/Cut.antt =====
-- The parts of `drainLines` of stream.go: the flush of fragments, and the cut at a newline.

use processkit_go.Prelude.{
  ℕ, zero, suc, ◌≤◌, ◌<◌, leb, false, Option, none, some, List, [], ◌∷◌, ◌++◌, Bytes, ◌==◌, ◌≡◌,
  inl, inr, refl, sym, ap, ◌∙◌, arith, Bool-cases, if◌then◌else◌, length, length-drop, take, drop,
  take-append-drop, append_assoc, append-nil,
}
use processkit_go.Stream.{Piece, accumulated, raw, cut_newline, flush, remainder}

-- All the bytes of some pieces.
abbrev pub bytes_of : List Piece → Bytes
bytes_of [] = []
bytes_of (p ∷ ps) = raw p ++ bytes_of ps

abbrev pub concat : List Bytes → Bytes
concat [] = []
concat (b ∷ bs) = b ++ concat bs

pub bytes_of-append : (ps qs : List Piece) → bytes_of (ps ++ qs) ≡ bytes_of ps ++ bytes_of qs
bytes_of-append [] qs = refl
bytes_of-append (p ∷ ps) qs = simp (bytes_of-append ps qs, append_assoc)

pub flush-bytes :
    (fuel limit : ℕ) (acc : Bytes)
    → bytes_of (flush fuel limit acc).0 ++ (flush fuel limit acc).1 ≡ acc
unfolding flush
flush-bytes zero limit acc = refl
flush-bytes (suc fuel) limit acc = elim (Bool-cases (leb limit (length acc))) [
  | inl e ↦
      rw (e, flush)
        (append_assoc (take limit acc) _ _
          ∙ ap (λ t. take limit acc ++ t) (flush-bytes fuel limit (drop limit acc))
          ∙ take-append-drop limit acc)
  | inr e ↦ rw (e, flush) refl
]

-- With enough fuel, less than the limit is left.
pub flush-left :
    (fuel limit : ℕ) (acc : Bytes)
    → 1 ≤ limit
    → length acc ≤ fuel
    → length (flush fuel limit acc).1 < limit
unfolding flush
flush-left zero limit acc h k = omega arith
flush-left (suc fuel) limit acc h k =
    ground (arith, flush-left fuel limit (drop limit acc) h, length-drop limit acc)

-- One pass over the whole stream, with no chunks and no limit.
abbrev pub one_pass : Bytes → Bytes → List Piece
one_pass acc [] = remainder acc
one_pass acc (c ∷ s) =
    let ended = accumulated (acc ++ c ∷ []) ∷ one_pass [] s in
    let going = one_pass (acc ++ c ∷ []) s in if c == 10 then ended else going

-- A newline found: the line before it and with it, and the rest.
pub record Cut (chunk line rest : Bytes) : Type 0 where
  pub whole : line ++ rest ≡ chunk
  pub shorter : length rest < length chunk
  pub ends :
      (acc more : Bytes)
      → one_pass acc (line ++ more) ≡ accumulated (acc ++ line) ∷ one_pass [] more

cut_newline-step :
    (c : ℕ) (s : Bytes) (o : Option (Bytes × Bytes))
    → cut_newline s ≡ o
    → (c == 10) ≡ false
    → cut_newline (c ∷ s) ≡ elim o as (λ _. Option (Bytes × Bytes)) [
      | none ↦ none
      | some (line, rest) ↦ some (c ∷ line, rest)
    ]
unfolding cut_newline
cut_newline-step c s o e h = rw (h, e)

-- Either there is no newline in the chunk, or the chunk is cut at the first.
pub data CutView (chunk : Bytes) : Option (Bytes × Bytes) → Type 0 where
  uncut :
      ((acc more : Bytes) → one_pass acc (chunk ++ more) ≡ one_pass (acc ++ chunk) more)
      → CutView chunk none
  cut : (line rest : Bytes) → Cut chunk line rest → CutView chunk (some (line, rest))

Cut-later :
    (c : ℕ) (s line rest : Bytes)
    → (c == 10) ≡ false
    → Cut s line rest
    → Cut (c ∷ s) (c ∷ line) rest
Cut-later c s line rest h k = record {
  whole = ap (λ l. c ∷ l) k.whole;
  shorter = omega (arith, k.shorter);
  ends = λ acc more. rw h (
      k.ends (acc ++ c ∷ []) more
      ∙ ap (λ l. accumulated l ∷ one_pass [] more) (append_assoc acc (c ∷ []) line));
}

pub cut_newline-view : (chunk : Bytes) → CutView chunk (cut_newline chunk)
unfolding cut_newline
cut_newline-view [] = uncut (λ acc more. ap (λ l. one_pass l more) (sym (append-nil acc)))
cut_newline-view (c ∷ s) = elim (Bool-cases (c == 10)) [
  | inl e ↦
      rw (e, cut_newline)
        (cut (c ∷ []) s
          (record { whole = refl; shorter = omega arith; ends = λ acc more. rw e refl }))
  | inr e ↦ go (cut_newline s) (cut_newline-view s) refl e
]
  where
    go :
        (o : Option (Bytes × Bytes))
        → CutView s o
        → cut_newline s ≡ o
        → (c == 10) ≡ false
        → CutView (c ∷ s) (cut_newline (c ∷ s))
    go none (uncut h) e f = rw (cut_newline-step c s none e f) (
        uncut (λ acc more.
          rw f (h (acc ++ c ∷ []) more ∙ ap (λ l. one_pass l more) (append_assoc acc (c ∷ []) s))))
    go (some (line, rest)) (cut _ _ k) e f =
        rw (cut_newline-step c s (some (line, rest)) e f)
          (cut (c ∷ line) rest (Cut-later c s line rest f k))
