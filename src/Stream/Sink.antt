-- ===== src/Stream/Sink.antt =====
-- `lineSink.emit` of stream.go on the merged line channel, with the consumer that receives from it.
-- The channel is bounded: what is buffered, what the consumer has got, and the count of drops. Under
-- OverflowBlock a send waits in a `select` until there is room or the process is torn down; the lines of
-- the sends that wait are a queue, as in Go's channels.
pub mod Handled
pub mod Order
use processkit_go.Prelude.{
  ℕ, suc, ◌+◌, ◌≤◌, ◌<◌, ltb, Bool, true, false, Option, none, some, List, [], ◌∷◌, ◌++◌, Bytes,
  ◌≡◌, ◌⊎◌, inl, inr, refl, sym, ap, ◌∙◌, arith, if◌then◌else◌, length, length-append, append_assoc,
  ◌&&◌, append-nil, Bool-cases,
}
use processkit_go.Stream.{Line, OverflowPolicy, overflow_block, overflow_drop_newest}

pub record Channel : Type 0 where
  pub capacity : ℕ
  pub buffered : List Line
  pub received : List Line
  pub waiting : List Line
  pub dropped : ℕ

-- `make(chan Line, c.bufferLines)`.
unfoldable pub open_channel : ℕ → Channel
open_channel capacity = record {
  capacity = capacity;
  buffered = [];
  received = [];
  waiting = [];
  dropped = 0;
}

abbrev pub is_none_waiting : List Line → Bool
is_none_waiting [] = true
is_none_waiting (l ∷ rest) = false

-- For a new send; those that wait go first.
abbrev pub has_room : Channel → Bool
has_room ch = is_none_waiting ch.waiting && ltb (length ch.buffered) ch.capacity

abbrev send : Line → Channel → Channel
send l ch = record ch { buffered = ch.buffered ++ l ∷ [] }

-- What becomes of a line that is emitted.
pub data Emitted : Type 0 where
  sent dropped_line released waits : Emitted

-- The channel part of `emit`. `torn_down` is whether `ctxDone` or `stop` is ready; where a send and a
-- release are both possible, Go may take either, and `prefers_release` says which.
unfoldable pub emit : OverflowPolicy → Bool → Bool → Line → Channel → Emitted × Channel
emit overflow_drop_newest torn_down prefers_release l ch =
    if has_room ch
    then (sent, send l ch)
    else (dropped_line, record ch { dropped = suc ch.dropped })
emit overflow_block torn_down prefers_release l ch =
    if has_room ch
    then (if torn_down
        then (if prefers_release then (released, ch) else (sent, send l ch))
        else (sent, send l ch))
    else (if torn_down
        then (released, ch)
        else (waits, record ch { waiting = ch.waiting ++ l ∷ [] }))

-- The consumer takes the oldest line, if there is one, and the first send that waits gets its place.
unfoldable pub receive : Channel → Channel
receive ch = elim ch.buffered [
  | [] ↦ elim ch.waiting [
    | [] ↦ ch
    | x ∷ later ↦ record ch { received = ch.received ++ x ∷ []; waiting = later }
  ]
  | l ∷ rest ↦ elim ch.waiting [
    | [] ↦ record ch { buffered = rest; received = ch.received ++ l ∷ [] }
    | x ∷ later ↦ record ch {
      buffered = rest ++ x ∷ [];
      received = ch.received ++ l ∷ [];
      waiting = later;
    }
  ]
]

-- `releases` is a teardown that ends the first send that waits.
pub data Event : Type 0 where
  emits : Bool → Bool → Line → Event
  receives releases : Event

abbrev pub without_first : List Line → List Line
without_first [] = []
without_first (l ∷ rest) = rest

unfoldable pub handle : OverflowPolicy → Event → Channel → Channel
unfolding emit receive
handle policy (emits torn_down prefers_release l) ch =
    (emit policy torn_down prefers_release l ch).1
handle policy receives ch = receive ch
handle policy releases ch = record ch { waiting = without_first ch.waiting }

unfoldable pub handle_all : OverflowPolicy → List Event → Channel → Channel
handle_all policy [] ch = ch
handle_all policy (e ∷ es) ch = handle_all policy es (handle policy e ch)

-- The lines that are emitted by some events, in order.
abbrev pub emitted : List Event → List Line
emitted [] = []
emitted (emits torn_down prefers_release l ∷ es) = l ∷ emitted es
emitted (receives ∷ es) = emitted es
emitted (releases ∷ es) = emitted es
