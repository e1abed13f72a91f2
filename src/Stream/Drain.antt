-- ===== src/Stream/Drain.antt =====
-- What `drainLines` of stream.go emits.
use processkit_go.Prelude.{
  ℤ, ℕ, zero, suc, ◌+◌, ◌≤◌, ◌<◌, Option, none, some, List, [], ◌∷◌, ◌++◌, Bytes, ◌≡◌, refl, sym,
  ap, ◌∙◌, map, arith, length, length-append, append_assoc, append-nil,
}
use processkit_go.Stream.{
  Piece, accumulated, text_of, cut_newline, flush, drain_chunk, remainder, drain, cap_of,
  drain_lines,
}
use processkit_go.Stream.Cut.{
  bytes_of, concat, bytes_of-append, flush-bytes, flush-left, one_pass, Cut, CutView, uncut, cut,
  cut_newline-view,
}

-- What holds of the pieces and of what is left after a chunk.
record Drained (limit : ℕ) (acc chunk : Bytes) (pieces : List Piece) (left : Bytes) : Type 0 where
  kept : bytes_of pieces ++ left ≡ acc ++ chunk
  bounded : 1 ≤ limit → length acc < limit → length left < limit
  plain :
      length acc + length chunk < limit
      → (more : Bytes) → one_pass acc (chunk ++ more) ≡ pieces ++ one_pass left more

flush-small : (fuel limit : ℕ) (acc : Bytes) → length acc < limit → flush fuel limit acc ≡ ([], acc)
unfolding flush
flush-small zero limit acc h = refl
flush-small (suc fuel) limit acc h = ground arith

Drained-flush :
    (limit : ℕ) (acc chunk : Bytes)
    → ((acc more : Bytes) → one_pass acc (chunk ++ more) ≡ one_pass (acc ++ chunk) more)
    → let all = acc ++ chunk in
      Drained limit acc chunk (flush (length all) limit all).0 (flush (length all) limit all).1
Drained-flush limit acc chunk h = record {
  kept = flush-bytes _ limit (acc ++ chunk);
  bounded = λ one _. flush-left _ limit (acc ++ chunk) one (omega arith);
  plain = λ small more.
      rw
        (flush-small (length (acc ++ chunk)) limit (acc ++ chunk)
          (omega (arith, length-append acc chunk)))
        (h acc more);
}

Drained-Cut :
    (limit : ℕ) (acc chunk line rest : Bytes) (pieces : List Piece) (left : Bytes)
    → Cut chunk line rest
    → Drained limit [] rest pieces left
    → Drained limit acc chunk (accumulated (acc ++ line) ∷ pieces) left
Drained-Cut limit acc chunk line rest pieces left k d = record {
  kept =
      append_assoc (acc ++ line) (bytes_of pieces) left
      ∙ ap (λ t. (acc ++ line) ++ t) d.kept
      ∙ append_assoc acc line rest
      ∙ ap (λ t. acc ++ t) k.whole;
  bounded = λ one _. d.bounded one (omega arith);
  plain = λ small more.
      ap (λ t. one_pass acc (t ++ more)) (sym k.whole)
      ∙ ap (one_pass acc) (append_assoc line rest more)
      ∙ k.ends acc (rest ++ more)
      ∙ ap (λ l. accumulated (acc ++ line) ∷ l) (d.plain (omega (arith, k.shorter)) more);
}

drain_chunk-Drained :
    (fuel limit : ℕ) (acc chunk : Bytes)
    → length chunk ≤ fuel
    → Drained limit acc chunk
        (drain_chunk fuel limit acc chunk).0
        (drain_chunk fuel limit acc chunk).1
unfolding drain_chunk
drain_chunk-Drained zero limit acc [] h = record {
  kept = sym (append-nil acc);
  bounded = λ _ k. k;
  plain = λ _ more. refl;
}
drain_chunk-Drained zero limit acc (c ∷ chunk) h = absurd (omega arith)
drain_chunk-Drained (suc fuel) limit acc [] h = record {
  kept = sym (append-nil acc);
  bounded = λ _ k. k;
  plain = λ _ more. refl;
}
drain_chunk-Drained (suc fuel) limit acc (c ∷ chunk) h =
    go (cut_newline (c ∷ chunk)) (cut_newline-view (c ∷ chunk)) refl
      (drain_chunk-Drained fuel limit [])
  where
    go :
        (o : Option (Bytes × Bytes))
        → CutView (c ∷ chunk) o
        → cut_newline (c ∷ chunk) ≡ o
        → ((rest : Bytes)
            → length rest ≤ fuel
            → Drained limit [] rest
                (drain_chunk fuel limit [] rest).0
                (drain_chunk fuel limit [] rest).1)
        → Drained limit acc
            (c ∷ chunk)
            (drain_chunk (suc fuel) limit acc (c ∷ chunk)).0
            (drain_chunk (suc fuel) limit acc (c ∷ chunk)).1
    go none (uncut same) e ih = rw (e, drain_chunk) (Drained-flush limit acc (c ∷ chunk) same)
    go (some (line, rest)) (cut _ _ k) e ih =
        rw (e, drain_chunk)
          (Drained-Cut limit acc (c ∷ chunk) line rest _ _ k (ih rest (omega (arith, k.shorter))))

remainder-bytes : (acc : Bytes) → bytes_of (remainder acc) ≡ acc
remainder-bytes [] = refl
remainder-bytes (c ∷ acc) = append-nil (c ∷ acc)

chunk_step :
    (limit : ℕ) (acc chunk : Bytes)
    → Drained limit acc chunk
        (drain_chunk (length chunk) limit acc chunk).0
        (drain_chunk (length chunk) limit acc chunk).1
chunk_step limit acc chunk = drain_chunk-Drained (length chunk) limit acc chunk (omega arith)

-- Nothing is lost or added: the pieces, whose line ends are not yet trimmed, spell the bytes that were
-- accumulated before and all that was read, whatever the chunks and the limit are.
pub drain-bytes :
    (limit : ℕ) (acc : Bytes) (chunks : List Bytes)
    → bytes_of (drain limit acc chunks) ≡ acc ++ concat chunks
unfolding drain
drain-bytes limit acc [] = remainder-bytes acc ∙ sym (append-nil acc)
drain-bytes limit acc (chunk ∷ chunks) =
    let (pieces, left) = drain_chunk (length chunk) limit acc chunk in
    bytes_of-append pieces (drain limit left chunks)
    ∙ ap (λ t. bytes_of pieces ++ t) (drain-bytes limit left chunks)
    ∙ sym (append_assoc (bytes_of pieces) left (concat chunks))
    ∙ ap (λ t. t ++ concat chunks) (chunk_step limit acc chunk).kept
    ∙ append_assoc acc chunk (concat chunks)

-- Less than the limit is held in memory after each chunk.
pub drain_chunk_bounded :
    (limit : ℕ) (acc chunk : Bytes)
    → 1 ≤ limit
    → length acc < limit
    → length (drain_chunk (length chunk) limit acc chunk).1 < limit
drain_chunk_bounded limit acc chunk one h = (chunk_step limit acc chunk).bounded one h

drain-one_pass :
    (limit : ℕ) (acc : Bytes) (chunks : List Bytes)
    → length acc + length (concat chunks) < limit
    → drain limit acc chunks ≡ one_pass acc (concat chunks)
unfolding drain
drain-one_pass limit acc [] h = refl
drain-one_pass limit acc (chunk ∷ chunks) h =
    let d = chunk_step limit acc chunk in
    let (pieces, left) = drain_chunk (length chunk) limit acc chunk in
    ap (λ t. pieces ++ t)
      (drain-one_pass limit left chunks (
        omega (
          arith,
          ap length d.kept,
          length-append (bytes_of pieces) left,
          length-append acc chunk,
          length-append chunk (concat chunks),
        )))
    ∙ sym (d.plain (omega (arith, length-append chunk (concat chunks))) (concat chunks))

-- A stream shorter than the limit is split at its newlines alone: how it was cut into reads does not
-- show in the lines.
pub drain_lines-one_pass :
    (chunks : List Bytes) (max_line_bytes : ℤ)
    → length (concat chunks) < cap_of max_line_bytes
    → drain_lines chunks max_line_bytes ≡ map text_of (one_pass [] (concat chunks))
unfolding drain_lines
drain_lines-one_pass chunks max_line_bytes h =
    ap (map text_of) (drain-one_pass (cap_of max_line_bytes) [] chunks (omega arith))
