-- ===== src/Stream.antt =====
-- stream.go: the start options' defaults, the split of an output stream into lines, and the sink that
-- delivers them. What `src.Read` returns, up to the error that ends the stream, is a list of chunks.
pub mod Cut
pub mod Drain
pub mod Sink
pub mod Pipes
pub mod Options
use processkit_go.Prelude.{
  ℤ, pos, pos_part, leb_ℤ, ℕ, zero, suc, ◌+◌, leb, Bool, true, false, ◌||◌, Option, none, some,
  is_some, List, [], ◌∷◌, ◌++◌, Bytes, ◌==◌, map, if◌then◌else◌, length, take, drop, codes,
}

abbrev pub default_max_line_bytes : ℕ
default_max_line_bytes = 1048576

abbrev pub default_buffer_lines : ℤ
default_buffer_lines = pos 1024

pub data StreamId : Type 0 where
  stream_stdout stream_stderr : StreamId

pub data OverflowPolicy : Type 0 where
  overflow_block overflow_drop_newest : OverflowPolicy

pub record Line : Type 0 where
  pub stream : StreamId
  pub text : Bytes

-- Of a callback or a writer the configuration only says whether it is set.
pub record StartConfig : Type 0 where
  pub has_stdout_tee : Bool
  pub has_stderr_tee : Bool
  pub has_on_stdout : Bool
  pub has_on_stderr : Bool
  pub stream_lines : Bool
  pub buffer_lines : ℤ
  pub overflow : OverflowPolicy
  pub max_line_bytes : ℤ

unfoldable pub resolve : StartConfig → StartConfig
resolve c = record c {
  buffer_lines = if leb_ℤ c.buffer_lines (pos 0) then default_buffer_lines else c.buffer_lines;
  max_line_bytes =
      if leb_ℤ c.max_line_bytes (pos 0) then pos default_max_line_bytes else c.max_line_bytes;
}

unfoldable pub wants_stdout : StartConfig → Bool
wants_stdout c = c.stream_lines || (c.has_on_stdout || c.has_stdout_tee)

unfoldable pub wants_stderr : StartConfig → Bool
wants_stderr c = c.stream_lines || (c.has_on_stderr || c.has_stderr_tee)

-- The last byte of a text, dropped if it is `b`.
unfoldable pub drop_last_if : ℕ → Bytes → Bytes
drop_last_if b [] = []
drop_last_if b (c ∷ []) = if c == b then [] else c ∷ []
drop_last_if b (c ∷ d ∷ s) = c ∷ drop_last_if b (d ∷ s)

unfoldable pub trim_line_end : Bytes → Bytes
unfolding drop_last_if
trim_line_end b = drop_last_if 13 (drop_last_if 10 b)

-- What `sink.emit` is called with: an accumulated line or remainder, whose end is trimmed, or a
-- fragment, which is emitted as it is.
pub data Piece : Type 0 where
  accumulated : Bytes → Piece
  fragment : Bytes → Piece

abbrev pub raw : Piece → Bytes
raw (accumulated b) = b
raw (fragment b) = b

unfoldable pub text_of : Piece → Bytes
unfolding trim_line_end
text_of (accumulated b) = trim_line_end b
text_of (fragment b) = b

-- `bytes.IndexByte(chunk, '\n')`, with the two slices that its index makes.
unfoldable pub cut_newline : Bytes → Option (Bytes × Bytes)
cut_newline [] = none
cut_newline (c ∷ s) =
    if c == 10
    then some (c ∷ [], s)
    else elim (cut_newline s) [ none ↦ none | some (line, rest) ↦ some (c ∷ line, rest) ]

-- The loop that flushes whole fragments of the limit's size. Its fuel is the length of what it flushes.
unfoldable pub flush : ℕ → ℕ → Bytes → List Piece × Bytes
flush zero limit acc = ([], acc)
flush (suc fuel) limit acc =
    let (pieces, left) = flush fuel limit (drop limit acc) in
    if leb limit (length acc) then (fragment (take limit acc) ∷ pieces, left) else ([], acc)

-- The loop over one chunk. Its fuel is the length of the chunk, each round takes some of it.
unfoldable pub drain_chunk : ℕ → ℕ → Bytes → Bytes → List Piece × Bytes
drain_chunk zero limit acc chunk = ([], acc)
drain_chunk (suc fuel) limit acc [] = ([], acc)
drain_chunk (suc fuel) limit acc (c ∷ chunk) = elim (cut_newline (c ∷ chunk)) [
  | none ↦ (let all = acc ++ c ∷ chunk in flush (length all) limit all)
  | some (line, rest) ↦
      let (pieces, left) = drain_chunk fuel limit [] rest in
      (accumulated (acc ++ line) ∷ pieces, left)
]

abbrev pub remainder : Bytes → List Piece
remainder [] = []
remainder (c ∷ acc) = accumulated (c ∷ acc) ∷ []

-- The loop over the reads, and the remainder at the end of the stream.
unfoldable pub drain : ℕ → Bytes → List Bytes → List Piece
drain limit acc [] = remainder acc
drain limit acc (chunk ∷ chunks) =
    let (pieces, left) = drain_chunk (length chunk) limit acc chunk in
    pieces ++ drain limit left chunks

abbrev pub cap_of : ℤ → ℕ
cap_of n = if leb_ℤ n (pos 0) then default_max_line_bytes else pos_part n

-- `drainLines`: the texts that are emitted, in order.
unfoldable pub drain_lines : List Bytes → ℤ → List Bytes
drain_lines chunks max_line_bytes = map text_of (drain (cap_of max_line_bytes) [] chunks)
