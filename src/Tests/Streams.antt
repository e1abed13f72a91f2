-- ===== src/Tests/Streams.antt =====
-- Streams at concrete inputs (stream.go).
use processkit_go.Prelude.{
  pos, ◌+◌, ◌≤◌, true, false, List, [], ◌∷◌, ◌++◌, Bytes, codes, length, map, ◌≡◌, refl, arith,
}
use processkit_go.Stream.{
  Line, stream_stdout, overflow_block, overflow_drop_newest, raw, text_of, drain_chunk, drain,
  drain_lines, cap_of,
}
use processkit_go.Stream.Cut.{bytes_of, concat, one_pass}
use processkit_go.Stream.Drain.{drain-bytes, drain_lines-one_pass}
use processkit_go.Stream.Sink.{Event, emits, receives, open_channel, handle_all, emitted}
use processkit_go.Stream.Sink.Handled.{InOrder, delivered}
use processkit_go.Stream.Sink.Order.{consumer_order, drop_newest_accounts, block_never_drops}

-- "ab", CRLF, "c" and "d" LF, over three reads.
abbrev reads : List Bytes
reads = (97 ∷ 98 ∷ []) ∷ (13 ∷ 10 ∷ 99 ∷ []) ∷ (100 ∷ 10 ∷ 101 ∷ []) ∷ []

split_lines : drain_lines reads (pos 64) ≡ codes "ab" ∷ codes "cd" ∷ codes "e" ∷ []
unfolding drain_lines drain drain_chunk processkit_go.Stream.flush processkit_go.Stream.cut_newline
    text_of
split_lines = refl

-- With a cap of 2, a run of 5 bytes goes out in fragments.
fragments : drain_lines (codes "abcde" ∷ []) (pos 2) ≡ codes "ab" ∷ codes "cd" ∷ codes "e" ∷ []
unfolding drain_lines drain drain_chunk processkit_go.Stream.flush processkit_go.Stream.cut_newline
    text_of
fragments = refl

drain-bytes_example : bytes_of (drain 2 [] reads) ≡ [] ++ concat reads
drain-bytes_example = drain-bytes 2 [] reads

drain_lines-one_pass_example : drain_lines reads (pos 64) ≡ map text_of (one_pass [] (concat reads))
drain_lines-one_pass_example = drain_lines-one_pass reads (pos 64) (omega arith)

abbrev line : Bytes → Line
line text = record { stream = stream_stdout; text = text }

abbrev events : List Event
events =
    emits false false (line (codes "a"))
    ∷ emits false false (line (codes "b"))
    ∷ receives
    ∷ emits true true (line (codes "c"))
    ∷ []

dropped_b :
    delivered (handle_all overflow_drop_newest events (open_channel 1))
    ≡ line (codes "a") ∷ line (codes "c") ∷ []
unfolding handle_all processkit_go.Stream.Sink.handle open_channel
dropped_b = refl

-- The second line waits until the first is received; the third finds no room, and the teardown ends it.
blocked_b :
    delivered (handle_all overflow_block events (open_channel 1))
    ≡ line (codes "a") ∷ line (codes "b") ∷ []
unfolding handle_all processkit_go.Stream.Sink.handle open_channel
blocked_b = refl

consumer_order_example :
    InOrder (delivered (handle_all overflow_drop_newest events (open_channel 1))) (emitted events)
consumer_order_example = consumer_order overflow_drop_newest 1 events

drop_newest_accounts_example :
    let ch = handle_all overflow_drop_newest events (open_channel 1) in
    (length ch.received + length ch.buffered + ch.dropped ≡ length (emitted events))
    × (length ch.buffered ≤ ch.capacity)
drop_newest_accounts_example = drop_newest_accounts 1 events

block_never_drops_example :
    let ch = handle_all overflow_block events (open_channel 1) in
    (ch.dropped ≡ 0) × (length ch.buffered ≤ ch.capacity)
block_never_drops_example = block_never_drops 1 events
