-- ===== src/Command/Slices.antt =====
-- Go's slices of strings, as command.go uses them: a slice is a length and a backing array on the heap,
-- nil is `none`, and `append` writes into the array where it has room. `spare` is the room that the
-- runtime leaves in a new array. A string itself is never changed.
use processkit_go.Prelude.{
  ℕ, zero, suc, ◌+◌, ◌≤◌, ◌<◌, leb, ◌==◌, true, false, Option, none, some, List, [], ◌∷◌, ◌++◌,
  append_assoc, Bytes, ◌≡◌, ◌≢◌, refl, sym, ap, ◌∙◌, inl, inr, arith, length, length-append, take,
  drop, replicate, length-take, if◌then◌else◌, Bool-cases, is_some,
}

pub record Slice : Type 0 where
  pub base : ℕ
  pub len : ℕ

pub record Heap : Type 0 where
  pub cells : ℕ → List Bytes
  pub next : ℕ

abbrev pub put : (ℕ → List Bytes) → ℕ → List Bytes → ℕ → List Bytes
put cells b array c = if c == b then array else cells c

-- What a slice shows.
abbrev pub view : Option Slice → Heap → List Bytes
view none h = []
view (some s) h = take s.len (h.cells s.base)

-- A slice that lies in its array.
abbrev pub Valid : Option Slice → Heap → Type 0
Valid none h = Unit
Valid (some s) h = (s.base < h.next) × (s.len ≤ length (h.cells s.base))

-- Two slices with different arrays.
abbrev pub Apart : Option Slice → Option Slice → Type 0
Apart none t = Unit
Apart (some s) none = Unit
Apart (some s) (some t) = s.base ≢ t.base

pub Apart-sym : (s t : Option Slice) → Apart s t → Apart t s
Apart-sym none none h = tt
Apart-sym none (some t) h = tt
Apart-sym (some s) none h = tt
Apart-sym (some s) (some t) h = λ e. h (sym e)

-- A slice that a call leaves as it was.
pub record Kept (t : Option Slice) (h h' : Heap) : Type 0 where
  pub valid : Valid t h'
  pub same : view t h' ≡ view t h

pub Kept-trans : (t : Option Slice) (h h' h'' : Heap) → Kept t h h' → Kept t h' h'' → Kept t h h''
Kept-trans t h h' h'' k l = record { valid = l.valid; same = l.same ∙ k.same }

take-prefix : (n : ℕ) (ys zs : List Bytes) → n ≡ length ys → take n (ys ++ zs) ≡ ys
take-prefix zero [] zs e = refl
take-prefix zero (y ∷ ys) zs e = absurd (omega arith)
take-prefix (suc n) [] zs e = absurd (omega arith)
take-prefix (suc n) (y ∷ ys) zs e = ap (λ l. y ∷ l) (take-prefix n ys zs (omega arith))

abbrev base_of : Option Slice → ℕ
base_of none = 0
base_of (some s) = s.base

same_base :
    (s : Slice) (m : ℕ) (t : Option Slice)
    → Apart (some s) t
    → Apart (some (record { base = s.base; len = m })) t
same_base s m none a = tt
same_base s m (some t) a = a

module _ (spare : ℕ → ℕ) where
  -- A new array that begins with these strings.
  unfoldable pub alloc : List Bytes → Heap → Option Slice × Heap
  alloc xs h = (
    some (record { base = h.next; len = length xs }),
    record {
      cells = put h.cells h.next (xs ++ replicate (spare (length xs)) []);
      next = suc h.next;
    },
  )

  -- `[]string{}`.
  unfoldable pub empty : Heap → Option Slice × Heap
  empty h = (
    some (record { base = h.next; len = 0 }),
    record { cells = put h.cells h.next []; next = suc h.next },
  )

  -- `append(s, xs...)`, of a slice that is not nil.
  unfoldable pub extend : Slice → List Bytes → Heap → Option Slice × Heap
  extend s xs h =
      let array = h.cells s.base in
      if leb (s.len + length xs) (length array)
      then (
        some (record s { len = s.len + length xs }),
        record h {
          cells = put h.cells s.base ((take s.len array ++ xs) ++ drop (s.len + length xs) array);
        },
      )
      else alloc (take s.len array ++ xs) h

  unfoldable pub append : Option Slice → List Bytes → Heap → Option Slice × Heap
  unfolding extend alloc
  append none [] h = (none, h)
  append none (x ∷ xs) h = alloc (x ∷ xs) h
  append (some s) xs h = extend s xs h

  -- What `append` guarantees: the result shows the slice and the new strings, and every slice with
  -- another array is left as it was and has another array than the result.
  pub record Appended (s : Option Slice) (xs : List Bytes) (h : Heap) (r : Option Slice × Heap)
      : Type 0 where
    pub valid : Valid r.0 r.1
    pub shows : view r.0 r.1 ≡ view s h ++ xs
    pub keeps : (t : Option Slice) → Valid t h → Apart s t → Kept t h r.1
    pub apart : (t : Option Slice) → Valid t h → Apart s t → Apart r.0 t

  fresh-Apart :
      (h : Heap) (m : ℕ) (t : Option Slice)
      → Valid t h
      → Apart (some (record { base = h.next; len = m })) t
  fresh-Apart h m none v = tt
  fresh-Apart h m (some t) v = λ e. omega arith

  put-Kept :
      (h : Heap) (b n : ℕ) (array : List Bytes) (t : Option Slice)
      → Valid t h
      → h.next ≤ n
      → ((u : Slice) → t ≡ some u → b ≢ u.base)
      → Kept t h (record { cells = put h.cells b array; next = n })
  put-Kept h b n array none v le a = record { valid = tt; same = refl }
  put-Kept h b n array (some t) v le a =
      let other : (t.base == b) ≡ false = ground (arith, a t refl) in
      record { valid = (omega arith, rw other v.1); same = rw other }

  ne_base :
      (b m : ℕ) (t : Option Slice)
      → Apart (some (record { base = b; len = m })) t
      → (u : Slice) → t ≡ some u
      → b ≢ u.base
  ne_base b m none a u e = absurd (cc)
  ne_base b m (some t) a u e = λ f. a (f ∙ sym (ap base_of e))

  -- The result is in the array `b`, which begins with what it shows.
  put-Appended :
      (s : Option Slice) (xs : List Bytes) (h : Heap) (b m n : ℕ) (ys zs : List Bytes)
      → ys ≡ view s h ++ xs
      → m ≡ length ys
      → b < n
      → h.next ≤ n
      → ((t : Option Slice) → Valid t h → Apart s t → Apart (some (record { base = b; len = m })) t)
      → Appended s xs h (
        some (record { base = b; len = m }),
        record { cells = put h.cells b (ys ++ zs); next = n },
      )
  put-Appended s xs h b m n ys zs shows len low le apart =
      let same : (b == b) ≡ true = ground arith in
      record {
        valid = (low, rw same (omega (arith, length-append ys zs, len)));
        shows = rw same (take-prefix m ys zs len ∙ shows);
        keeps = λ t v a. put-Kept h b n (ys ++ zs) t v le (ne_base b m t (apart t v a));
        apart = apart;
      }

  alloc-Appended :
      (s : Option Slice) (xs ys : List Bytes) (h : Heap)
      → ys ≡ view s h ++ xs
      → Appended s xs h (alloc ys h)
  unfolding alloc
  alloc-Appended s xs ys h e =
      put-Appended s xs h h.next (length ys) (suc h.next) ys _ e refl (omega arith) (omega arith)
        (λ t v a. fresh-Apart h (length ys) t v)

  extend-Appended :
      (s : Slice) (xs : List Bytes) (h : Heap)
      → Valid (some s) h
      → Appended (some s) xs h (extend s xs h)
  unfolding extend
  extend-Appended s xs h v = elim (Bool-cases (leb (s.len + length xs) (length (h.cells s.base)))) [
    | inl room ↦
        rw (room, extend)
          (put-Appended (some s) xs h s.base (s.len + length xs) h.next
            (take s.len (h.cells s.base) ++ xs) _ refl
            (omega (
              arith,
              length-append (take s.len (h.cells s.base)) xs,
              length-take s.len (h.cells s.base),
              v.1,
            ))
            v.0 (omega arith) (λ t w a. same_base s (s.len + length xs) t a))
    | inr full ↦ rw (full, extend) (alloc-Appended (some s) xs _ h refl)
  ]

  pub append-Appended :
      (s : Option Slice) (xs : List Bytes) (h : Heap) → Valid s h → Appended s xs h (append s xs h)
  unfolding append
  append-Appended none [] h v = record {
    valid = tt;
    shows = refl;
    keeps = λ t w a. record { valid = w; same = refl };
    apart = λ t w a. tt;
  }
  append-Appended none (x ∷ xs) h v = alloc-Appended none (x ∷ xs) (x ∷ xs) h refl
  append-Appended (some s) xs h v = extend-Appended s xs h v

  -- An empty slice is a new one.
  pub empty-Appended : (h : Heap) → Appended none [] h (empty h)
  unfolding empty
  empty-Appended h =
      put-Appended none [] h h.next 0 (suc h.next) [] [] refl refl (omega arith) (omega arith)
        (λ t v a. fresh-Apart h 0 t v)

  -- One append after the other.
  pub Appended-then :
      (s : Option Slice) (xs ys : List Bytes) (h : Heap) (r q : Option Slice × Heap)
      → Appended s xs h r
      → Appended r.0 ys r.1 q
      → Appended s (xs ++ ys) h q
  Appended-then s xs ys h r q a b = record {
    valid = b.valid;
    shows = b.shows ∙ (ap (λ l. l ++ ys) a.shows ∙ append_assoc (view s h) xs ys);
    keeps = λ t v d.
        (let k = a.keeps t v d in Kept-trans t h r.1 q.1 k (b.keeps t k.valid (a.apart t v d)));
    apart = λ t v d. b.apart t (a.keeps t v d).valid (a.apart t v d);
  }

  -- A slice that is not nil stays so.
  pub extend-is_some : (s : Slice) (xs : List Bytes) (h : Heap) → is_some (extend s xs h).0 ≡ true
  unfolding extend alloc
  extend-is_some s xs h = ground arith
