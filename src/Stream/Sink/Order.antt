-- ===== src/Stream/Sink/Order.antt =====
-- What the consumer of the line channel of stream.go gets.
use processkit_go.Prelude.{
  ℕ, ◌+◌, ◌≤◌, List, [], ◌∷◌, ◌++◌, ◌≡◌, refl, ◌∙◌, arith, length, length-append, append-nil,
}
use processkit_go.Stream.{OverflowPolicy, overflow_block, overflow_drop_newest}
use processkit_go.Stream.Sink.{
  Channel, open_channel, Event, emits, receives, releases, handle, handle_all, emitted,
}
use processkit_go.Stream.Sink.Handled.{
  InOrder, InOrder-refl, InOrder-prefix, delivered, queued, handle-Handled,
}

handle_all-InOrder :
    (policy : OverflowPolicy) (es : List Event) (ch : Channel)
    → InOrder (queued (handle_all policy es ch)) (queued ch ++ emitted es)
unfolding handle_all
handle_all-InOrder policy [] ch = rw (append-nil (queued ch)) (InOrder-refl (queued ch))
handle_all-InOrder policy (receives ∷ es) ch =
    (handle-Handled policy receives ch).order (emitted es) _
      (handle_all-InOrder policy es (handle policy receives ch))
handle_all-InOrder policy (releases ∷ es) ch =
    (handle-Handled policy releases ch).order (emitted es) _
      (handle_all-InOrder policy es (handle policy releases ch))
handle_all-InOrder policy (emits t r l ∷ es) ch =
    (handle-Handled policy (emits t r l) ch).order (emitted es) _
      (handle_all-InOrder policy es (handle policy (emits t r l) ch))

-- Whatever the consumer and the teardown do, the lines that have gone into the channel are emitted
-- lines in the order in which they were emitted, some perhaps left out.
pub consumer_order :
    (policy : OverflowPolicy) (capacity : ℕ) (es : List Event)
    → InOrder (delivered (handle_all policy es (open_channel capacity))) (emitted es)
unfolding open_channel
consumer_order policy capacity es =
    InOrder-prefix (delivered (handle_all policy es (open_channel capacity)))
      (handle_all policy es (open_channel capacity)).waiting
      (handle_all-InOrder policy es (open_channel capacity))

handle_all-counted :
    (es : List Event) (ch : Channel)
    → ch.waiting ≡ []
    → let ch' = handle_all overflow_drop_newest es ch in
      length (delivered ch') + ch'.dropped
      ≡ length (delivered ch) + ch.dropped + length (emitted es)
unfolding handle_all
handle_all-counted [] ch w = omega arith
handle_all-counted (receives ∷ es) ch w =
    let (counted, none_waits) = (handle-Handled overflow_drop_newest receives ch).counted refl w in
    omega
      (arith, handle_all-counted es (handle overflow_drop_newest receives ch) none_waits, counted)
handle_all-counted (releases ∷ es) ch w =
    let (counted, none_waits) = (handle-Handled overflow_drop_newest releases ch).counted refl w in
    omega
      (arith, handle_all-counted es (handle overflow_drop_newest releases ch) none_waits, counted)
handle_all-counted (emits t r l ∷ es) ch w =
    let (counted, none_waits) =
      (handle-Handled overflow_drop_newest (emits t r l) ch).counted refl w in
    omega (
      arith,
      handle_all-counted es (handle overflow_drop_newest (emits t r l) ch) none_waits,
      counted,
    )

handle_all-bounded :
    (policy : OverflowPolicy) (es : List Event) (ch : Channel)
    → length ch.buffered ≤ ch.capacity
    → length (handle_all policy es ch).buffered ≤ (handle_all policy es ch).capacity
unfolding handle_all
handle_all-bounded policy [] ch h = h
handle_all-bounded policy (e ∷ es) ch h =
    handle_all-bounded policy es (handle policy e ch) ((handle-Handled policy e ch).bounded h)

-- Under OverflowDropNewest every emitted line is received, or buffered, or counted as dropped, and the
-- buffer never holds more than its capacity.
pub drop_newest_accounts :
    (capacity : ℕ) (es : List Event)
    → let ch = handle_all overflow_drop_newest es (open_channel capacity) in
      (length ch.received + length ch.buffered + ch.dropped ≡ length (emitted es))
      × (length ch.buffered ≤ ch.capacity)
unfolding open_channel
drop_newest_accounts capacity es =
    let ch = handle_all overflow_drop_newest es (open_channel capacity) in
    (
      omega (
        arith,
        handle_all-counted es (open_channel capacity) refl,
        length-append ch.received ch.buffered,
      ),
      handle_all-bounded overflow_drop_newest es (open_channel capacity) (omega arith),
    )

handle_all-blocked :
    (es : List Event) (ch : Channel) → (handle_all overflow_block es ch).dropped ≡ ch.dropped
unfolding handle_all
handle_all-blocked [] ch = refl
handle_all-blocked (e ∷ es) ch =
    handle_all-blocked es (handle overflow_block e ch)
    ∙ (handle-Handled overflow_block e ch).blocked refl

-- Under OverflowBlock no line is counted as dropped, a line that a teardown releases included, and the
-- buffer never holds more than its capacity.
pub block_never_drops :
    (capacity : ℕ) (es : List Event)
    → let ch = handle_all overflow_block es (open_channel capacity) in
      (ch.dropped ≡ 0) × (length ch.buffered ≤ ch.capacity)
unfolding open_channel
block_never_drops capacity es = (
  handle_all-blocked es (open_channel capacity),
  handle_all-bounded overflow_block es (open_channel capacity) (omega arith),
)
