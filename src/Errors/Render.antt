-- ===== src/Errors/Render.antt =====
-- errors.go: the safe rendering of child-controlled text, and the texts of the error types. A rune is its
-- code point; the bytes of a string are read as UTF-8 the way `range` reads them.
use processkit_go.Prelude.{
  ℕ, zero, suc, ◌+◌, ◌*◌, ◌/◌, ◌%◌, ◌==◌, ltb, leb, Bool, not, ◌&&◌, ◌||◌, Option, none, some, List,
  [], ◌∷◌, ◌++◌, Bytes, codes, if◌then◌else◌, length, get_or, take, drop,
}

-- A number from `lo` to `hi`.
abbrev pub within : ℕ → ℕ → ℕ → Bool
within lo hi r = leb lo r && leb r hi

-- `utf8.RuneStart`.
unfoldable pub rune_start : ℕ → Bool
rune_start b = not (within 128 191 b)

-- The loop of `preview`: the last position from `cut` down at which a rune starts.
unfoldable pub cut_back : ℕ → Bytes → ℕ
unfolding rune_start
cut_back zero s = 0
cut_back (suc n) s =
    let rest = cut_back n s in if rune_start (get_or s (suc n) 0) then suc n else rest

abbrev pub preview_limit : ℕ
preview_limit = 200

-- The three bytes of "…".
abbrev pub ellipsis : Bytes
ellipsis = 226 ∷ 128 ∷ 166 ∷ []

unfoldable pub preview : Bytes → Bytes
unfolding cut_back
preview s =
    if leb (length s) preview_limit then s else take (cut_back preview_limit s) s ++ ellipsis

-- A digit of `%x`.
abbrev pub hex_digit : ℕ → ℕ
hex_digit d = if ltb d 10 then 48 + d else 87 + d

abbrev pub hex_2 : ℕ → List ℕ
hex_2 r = hex_digit (r / 16 % 16) ∷ hex_digit (r % 16) ∷ []

abbrev pub hex_4 : ℕ → List ℕ
hex_4 r = hex_digit (r / 4096 % 16) ∷ hex_digit (r / 256 % 16) ∷ hex_2 r

unfoldable pub is_layout : ℕ → Bool
is_layout r = r == 10 || r == 9

unfoldable pub is_control : ℕ → Bool
is_control r = ltb r 32 || r == 127

unfoldable pub is_bidi : ℕ → Bool
is_bidi r = within 8234 8238 r || (within 8294 8297 r || (r == 8206 || r == 8207))

-- What `sanitize` writes for a rune: itself, or its escape.
unfoldable pub escape : ℕ → List ℕ
unfolding is_layout is_control is_bidi
escape r =
    if is_layout r
    then r ∷ []
    else if is_control r
    then 92 ∷ 120 ∷ hex_2 r
    else if is_bidi r
    then 92 ∷ 117 ∷ hex_4 r
    else r ∷ []

-- The loop of `sanitize` over the runes.
unfoldable pub sanitize_runes : List ℕ → List ℕ
unfolding escape
sanitize_runes [] = []
sanitize_runes (r ∷ rs) = escape r ++ sanitize_runes rs

-- A byte that continues a rune.
abbrev pub continues : ℕ → Bool
continues b = within 128 191 b

-- The bits that such a byte adds.
abbrev pub low_bits : ℕ → ℕ
low_bits b = b % 64

-- The rune that a string starts with and its width; an invalid byte is U+FFFD, of width 1.
abbrev pub rune_2 : ℕ → ℕ → Option (ℕ × ℕ)
rune_2 a b = if within 194 223 a && continues b then some (a % 32 * 64 + low_bits b, 2) else none

abbrev pub rune_3 : ℕ → ℕ → ℕ → Option (ℕ × ℕ)
rune_3 a b c =
    if within 224 239 a
      && (continues b
          && (continues c && (not (a == 224 && ltb b 160) && not (a == 237 && ltb 159 b))))
    then some (a % 16 * 4096 + low_bits b * 64 + low_bits c, 3)
    else none

abbrev pub rune_4 : ℕ → ℕ → ℕ → ℕ → Option (ℕ × ℕ)
rune_4 a b c d =
    if within 240 244 a
      && (continues b
          && (continues c
              && (continues d && (not (a == 240 && ltb b 144) && not (a == 244 && ltb 143 b)))))
    then some (a % 8 * 262144 + low_bits b * 4096 + low_bits c * 64 + low_bits d, 4)
    else none

abbrev pub or_invalid : Option (ℕ × ℕ) → ℕ × ℕ
or_invalid none = (65533, 1)
or_invalid (some r) = r

abbrev pub first_some : Option (ℕ × ℕ) → Option (ℕ × ℕ) → Option (ℕ × ℕ)
first_some none r = r
first_some (some r) later = some r

-- The bytes beyond the end are 0, which continues no rune.
abbrev pub first_rune : Bytes → ℕ × ℕ
first_rune s =
    let a = get_or s 0 0 in
    let b = get_or s 1 0 in
    let c = get_or s 2 0 in
    if ltb a 128
    then (a, 1)
    else or_invalid
        (first_some (rune_2 a b) (first_some (rune_3 a b c) (rune_4 a b c (get_or s 3 0))))

-- The runes over which `range` goes, with fuel for the bytes.
unfoldable pub runes_within : ℕ → Bytes → List ℕ
runes_within zero s = []
runes_within (suc fuel) [] = []
runes_within (suc fuel) (c ∷ s) =
    let (r, width) = first_rune (c ∷ s) in r ∷ runes_within fuel (drop width (c ∷ s))

unfoldable pub runes : Bytes → List ℕ
unfolding runes_within
runes s = runes_within (length s) s

-- `WriteRune`.
unfoldable pub encode : ℕ → Bytes
encode r =
    if ltb r 128
    then r ∷ []
    else if ltb r 2048
    then (192 + r / 64) ∷ (128 + r % 64) ∷ []
    else if ltb r 65536
    then (224 + r / 4096) ∷ (128 + r / 64 % 64) ∷ (128 + r % 64) ∷ []
    else (240 + r / 262144) ∷ (128 + r / 4096 % 64) ∷ (128 + r / 64 % 64) ∷ (128 + r % 64) ∷ []

unfoldable pub encode_all : List ℕ → Bytes
unfolding encode
encode_all [] = []
encode_all (r ∷ rs) = encode r ++ encode_all rs

unfoldable pub sanitize : Bytes → Bytes
unfolding runes encode_all sanitize_runes
sanitize s = encode_all (sanitize_runes (runes s))

-- The name between backquotes.
unfoldable pub quote_program : Bytes → Bytes
unfolding sanitize
quote_program [] = codes "`<command>`"
quote_program (c ∷ p) = codes "`" ++ (sanitize (c ∷ p) ++ codes "`")

unfoldable pub plural : ℕ → Bytes → Bytes → Bytes
plural n one_form many = if n == 1 then one_form else many
