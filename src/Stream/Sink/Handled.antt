-- ===== src/Stream/Sink/Handled.antt =====
-- What one event of the line channel of stream.go does.
use processkit_go.Prelude.{
  ℕ, suc, ◌+◌, ◌≤◌, Bool, true, false, List, [], ◌∷◌, ◌++◌, ◌≡◌, refl, ap, arith, length,
  length-append, append_assoc, append-nil, sym, ◌&&◌, Bool-cases, inl, inr,
}
use mathlib.Core.Path.{subst}
use processkit_go.Stream.{Line, OverflowPolicy, overflow_block, overflow_drop_newest}
use processkit_go.Stream.Sink.{
  Channel, is_none_waiting, has_room, Event, emits, receives, releases, without_first, emit,
  receive, handle, emitted,
}

-- The first list is the second with some elements left out.
pub data InOrder : List Line → List Line → Type 0 where
  done : InOrder [] []
  keep : (l : Line) {xs ys : List Line} → InOrder xs ys → InOrder (l ∷ xs) (l ∷ ys)
  skip : (l : Line) {xs ys : List Line} → InOrder xs ys → InOrder xs (l ∷ ys)

pub InOrder-refl : (xs : List Line) → InOrder xs xs
InOrder-refl [] = done
InOrder-refl (l ∷ xs) = keep l (InOrder-refl xs)

-- One more line may be left out anywhere.
pub InOrder-insert :
    (l : Line) (ys zs : List Line) {xs : List Line}
    → InOrder xs (ys ++ zs)
    → InOrder xs (ys ++ l ∷ zs)
InOrder-insert l [] zs h = skip l h
InOrder-insert l (y ∷ ys) zs (keep y' h) = keep y' (InOrder-insert l ys zs h)
InOrder-insert l (y ∷ ys) zs (skip y' h) = skip y' (InOrder-insert l ys zs h)

nothing-InOrder : {us vs : List Line} → InOrder us vs → InOrder [] vs
nothing-InOrder done = done
nothing-InOrder (keep l h) = skip l (nothing-InOrder h)
nothing-InOrder (skip l h) = skip l (nothing-InOrder h)

InOrder-start :
    (xs ys : List Line) {us vs : List Line} → us ≡ xs ++ ys → InOrder us vs → InOrder xs vs
InOrder-start [] ys e h = nothing-InOrder h
InOrder-start (x ∷ xs) ys e done = absurd (ground arith)
InOrder-start (x ∷ xs) ys e (keep l {xs = us'} {ys = vs'} h) =
    let same : l ≡ x = ground arith in
    let rest : us' ≡ xs ++ ys = ground arith in
    subst (λ y. InOrder (y ∷ xs) (l ∷ vs')) same (keep l (InOrder-start xs ys rest h))
InOrder-start (x ∷ xs) ys e (skip l h) = skip l (InOrder-start (x ∷ xs) ys e h)

pub InOrder-prefix : (xs ys : List Line) {zs : List Line} → InOrder (xs ++ ys) zs → InOrder xs zs
InOrder-prefix xs ys h = InOrder-start xs ys refl h

-- All lines that have gone into the channel, in order.
abbrev pub delivered : Channel → List Line
delivered ch = ch.received ++ ch.buffered

-- And the lines that wait for room.
abbrev pub queued : Channel → List Line
queued ch = delivered ch ++ ch.waiting

-- What one event does to the lines, the buffer and the count of drops.
pub record Handled (policy : OverflowPolicy) (e : Event) (ch ch' : Channel) : Type 0 where
  pub order :
      (zs xs : List Line)
      → InOrder xs (queued ch' ++ zs)
      → InOrder xs (queued ch ++ (emitted (e ∷ []) ++ zs))
  pub bounded : length ch.buffered ≤ ch.capacity → length ch'.buffered ≤ ch'.capacity
  pub blocked : policy ≡ overflow_block → ch'.dropped ≡ ch.dropped
  pub counted :
      policy ≡ overflow_drop_newest
      → ch.waiting ≡ []
      → (length (delivered ch') + ch'.dropped
          ≡ length (delivered ch) + ch.dropped + length (emitted (e ∷ [])))
        × (ch'.waiting ≡ [])

room-none_waiting : (ws : List Line) (b : Bool) → (is_none_waiting ws && b) ≡ true → ws ≡ []
room-none_waiting [] b h = refl
room-none_waiting (l ∷ rest) b h = absurd (ground arith)

room-free : (b c : Bool) → (b && c) ≡ true → c ≡ true
room-free b c h = ground arith

length-send : (l : Line) (r b : List Line) → length (r ++ (b ++ l ∷ [])) ≡ suc (length (r ++ b))
length-send l r b =
    omega (arith, length-append r (b ++ l ∷ []), length-append b (l ∷ []), length-append r b)

-- A line that is sent is the last one delivered.
sent-queued :
    (l : Line) (r b zs : List Line)
    → ((r ++ (b ++ l ∷ [])) ++ []) ++ zs ≡ ((r ++ b) ++ []) ++ (l ∷ zs)
sent-queued l r b zs = simp (append_assoc, append-nil)

Handled-sent :
    (policy : OverflowPolicy) (t r : Bool) (l : Line) (ch : Channel)
    → has_room ch ≡ true
    → Handled policy (emits t r l) ch (record ch { buffered = ch.buffered ++ l ∷ [] })
Handled-sent policy t r l ch room =
    let none_waits = room-none_waiting ch.waiting _ room in
    let free = room-free (is_none_waiting ch.waiting) _ room in
    record {
      order = λ zs xs h.
          subst (λ ws. InOrder xs (((ch.received ++ ch.buffered) ++ ws) ++ l ∷ zs)) (sym none_waits)
            (subst (InOrder xs) (sent-queued l ch.received ch.buffered zs) (
              subst (λ ws. InOrder xs (((ch.received ++ (ch.buffered ++ l ∷ [])) ++ ws) ++ zs))
                none_waits h));
      bounded = λ _. ground (arith, length-append ch.buffered (l ∷ []));
      blocked = λ _. refl;
      counted = λ _ e. (omega (arith, length-send l ch.received ch.buffered), e);
    }

-- A line that is not sent is left out.
Handled-lost :
    (policy : OverflowPolicy) (t r : Bool) (l : Line) (ch : Channel) (n : ℕ)
    → (policy ≡ overflow_block → n ≡ ch.dropped)
    → (policy ≡ overflow_drop_newest → n ≡ suc ch.dropped)
    → Handled policy (emits t r l) ch (record ch { dropped = n })
Handled-lost policy t r l ch n block drop_newest = record {
  order = λ zs xs h. InOrder-insert l (queued ch) zs h;
  bounded = λ h. h;
  blocked = block;
  counted = λ e w. (omega (arith, drop_newest e), w);
}

-- A line that waits is the last one queued.
Handled-waits :
    (t r : Bool) (l : Line) (ch : Channel)
    → Handled overflow_block (emits t r l) ch (record ch { waiting = ch.waiting ++ l ∷ [] })
Handled-waits t r l ch = record {
  order = λ zs xs h. subst (InOrder xs) (joined (delivered ch) ch.waiting zs) h;
  bounded = λ h. h;
  blocked = λ _. refl;
  counted = λ k. cc;
}
  where
    joined : (d ws zs : List Line) → (d ++ (ws ++ l ∷ [])) ++ zs ≡ (d ++ ws) ++ l ∷ zs
    joined d ws zs = simp append_assoc

-- Receiving queues the same lines.
queued-receive : (ch : Channel) → queued (receive ch) ≡ queued ch
unfolding receive
queued-receive ch = go ch.buffered ch.waiting refl refl
  where
    go : (b ws : List Line) → ch.buffered ≡ b → ch.waiting ≡ ws → queued (receive ch) ≡ queued ch
    go [] [] e f = rw (e, f, receive) (rw (e, f) refl)
    go [] (x ∷ later) e f = rw (e, f, receive) (rw e (simp (append_assoc, append-nil)))
    go (l ∷ rest) [] e f = rw (e, f, receive) (rw f (simp (append_assoc, append-nil)))
    go (l ∷ rest) (x ∷ later) e f = rw (e, f, receive) (simp (append_assoc, append-nil))

receive_lem :
    (ch : Channel)
    → (length ch.buffered ≤ ch.capacity → length (receive ch).buffered ≤ (receive ch).capacity)
      × ((receive ch).dropped ≡ ch.dropped)
      × (ch.waiting ≡ [] → (receive ch).waiting ≡ [])
unfolding receive
receive_lem ch = go ch.buffered ch.waiting refl refl
  where
    go :
        (b ws : List Line)
        → ch.buffered ≡ b
        → ch.waiting ≡ ws
        → (length ch.buffered ≤ ch.capacity → length (receive ch).buffered ≤ (receive ch).capacity)
          × ((receive ch).dropped ≡ ch.dropped)
          × (ch.waiting ≡ [] → (receive ch).waiting ≡ [])
    go [] [] e f = rw (e, f, receive) (rw (e, f) (λ h. h, refl, λ w. w))
    go [] (x ∷ later) e f = rw (e, f, receive) (rw e (λ h. h, refl, λ w. absurd (ground arith)))
    go (l ∷ rest) [] e f = rw (e, f, receive) (rw f (λ h. ground arith, refl, λ w. refl))
    go (l ∷ rest) (x ∷ later) e f =
        rw (e, f, receive)
          (λ h. omega (arith, h, length-append rest (x ∷ [])), refl, λ w. absurd (ground arith))

Handled-receive : (policy : OverflowPolicy) (ch : Channel) → Handled policy receives ch (receive ch)
Handled-receive policy ch =
    let (bounded, same, none_waits) = receive_lem ch in
    record {
      order = λ zs xs h. subst (λ d. InOrder xs (d ++ zs)) (queued-receive ch) h;
      bounded = bounded;
      blocked = λ _. same;
      counted = λ _ w. (
        omega (
          arith,
          same,
          ap length (queued-receive ch),
          length-append (delivered (receive ch)) (receive ch).waiting,
          length-append (delivered ch) ch.waiting,
          ap length w,
          ap length (none_waits w),
        ),
        none_waits w,
      );
    }

Handled-release :
    (policy : OverflowPolicy) (ch : Channel)
    → Handled policy releases ch (record ch { waiting = without_first ch.waiting })
Handled-release policy ch = record {
  order = λ zs xs h. left_out ch.waiting zs xs h;
  bounded = λ h. h;
  blocked = λ _. refl;
  counted = λ _ w. (omega arith, ap without_first w);
}
  where
    left_out :
        (ws zs xs : List Line)
        → InOrder xs ((delivered ch ++ without_first ws) ++ zs)
        → InOrder xs ((delivered ch ++ ws) ++ zs)
    left_out [] zs xs h = h
    left_out (l ∷ rest) zs xs h =
        subst (InOrder xs) (sym (append_assoc (delivered ch) (l ∷ rest) zs)) (
          InOrder-insert l (delivered ch) (rest ++ zs)
            (subst (InOrder xs) (append_assoc (delivered ch) rest zs) h))

pub handle-Handled :
    (policy : OverflowPolicy) (e : Event) (ch : Channel) → Handled policy e ch (handle policy e ch)
unfolding handle
handle-Handled policy receives ch = Handled-receive policy ch
handle-Handled policy releases ch = Handled-release policy ch
handle-Handled overflow_drop_newest (emits t r l) ch = elim (Bool-cases (has_room ch)) [
  | inl e ↦ rw (e, handle, emit) (Handled-sent overflow_drop_newest t r l ch e)
  | inr e ↦
      rw (e, handle, emit) (Handled-lost overflow_drop_newest t r l ch _ (λ k. cc) (λ _. refl))
]
handle-Handled overflow_block (emits t r l) ch = elim (Bool-cases (has_room ch)) [
  | inl e ↦ room t r e
  | inr e ↦ full t e
]
  where
    lost : Handled overflow_block (emits t r l) ch ch
    lost = Handled-lost overflow_block t r l ch ch.dropped (λ _. refl) (λ k. cc)

    room :
        (t' r' : Bool)
        → has_room ch ≡ true
        → Handled overflow_block (emits t r l) ch (emit overflow_block t' r' l ch).1
    room true true e = rw (e, emit) lost
    room true false e = rw (e, emit) (Handled-sent overflow_block t r l ch e)
    room false r' e = rw (e, emit) (Handled-sent overflow_block t r l ch e)

    full :
        (t' : Bool)
        → has_room ch ≡ false
        → Handled overflow_block (emits t r l) ch (emit overflow_block t' r l ch).1
    full true e = rw (e, emit) lost
    full false e = rw (e, emit) (Handled-waits t r l ch)
