-- ===== src/Text.antt =====
-- The functions of packages strings and strconv that internal/sys applies to kernel files, which are
-- ASCII where they are parsed.
pub mod Fields
use processkit_go.Prelude.{
  ℤ, pos, negsuc, ℕ, zero, suc, ◌+◌, ◌-◌, ◌*◌, ltb, leb, Bool, true, false, ◌||◌, ◌&&◌, ◌==◌,
  Option, none, some, List, [], ◌∷◌, ◌++◌, Bytes, if◌then◌else◌, any, bytes_eq,
}
use processkit_go.Result.{trim_right}
use processkit_go.Sys.Counters.{max_uint64, max_int64_ℕ}

-- ASCII white space.
abbrev pub is_white : ℕ → Bool
is_white c = c == 32 || (leb 9 c && leb c 13)

-- `strings.Split(s, sep)` at a one-byte separator: never empty.
unfoldable pub split_from : ℕ → Bytes → Bytes → List Bytes
split_from sep acc [] = acc ∷ []
split_from sep acc (c ∷ s) = elim (c == sep) [
  | true ↦ acc ∷ split_from sep [] s
  | false ↦ split_from sep (acc ++ c ∷ []) s
]

unfoldable pub split_lines : Bytes → List Bytes
unfolding split_from
split_lines s = split_from 10 [] s

-- `strings.TrimSpace`.
unfoldable pub trim_left : Bytes → Bytes
trim_left [] = []
trim_left (c ∷ s) = elim (is_white c) [ true ↦ trim_left s | false ↦ c ∷ s ]

unfoldable pub trim_space : Bytes → Bytes
unfolding trim_left trim_right
trim_space s = trim_right is_white (trim_left s)

-- `strings.Fields`: the word read so far, and the words that follow.
abbrev pub word : Bytes → List Bytes
word [] = []
word (c ∷ acc) = (c ∷ acc) ∷ []

unfoldable pub fields_from : Bytes → Bytes → List Bytes
fields_from acc [] = word acc
fields_from acc (c ∷ s) = elim (is_white c) [
  | true ↦ word acc ++ fields_from [] s
  | false ↦ fields_from (acc ++ c ∷ []) s
]

unfoldable pub fields : Bytes → List Bytes
unfolding fields_from
fields s = fields_from [] s

-- `strings.CutPrefix`.
unfoldable pub cut_prefix : Bytes → Bytes → Option Bytes
cut_prefix [] s = some s
cut_prefix (p ∷ prefix) [] = none
cut_prefix (p ∷ prefix) (c ∷ s) = elim (p == c) [ true ↦ cut_prefix prefix s | false ↦ none ]

-- What follows the last `b`: `s[strings.LastIndexByte(s, b)+1:]`, if there is one.
abbrev pub later_or : Option Bytes → Bool → Bytes → Option Bytes
later_or (some t) here s = some t
later_or none here s = if here then some s else none

unfoldable pub after_last : ℕ → Bytes → Option Bytes
after_last b [] = none
after_last b (c ∷ s) = later_or (after_last b s) (c == b) s

-- Decimal digits, at least one.
abbrev pub is_digit : ℕ → Bool
is_digit c = leb b'0' c && leb c b'9'

unfoldable pub digits_from : ℕ → Bytes → Option ℕ
digits_from n [] = some n
digits_from n (c ∷ s) = elim (is_digit c) [
  | true ↦ digits_from (n * 10 + (c - b'0')) s
  | false ↦ none
]

unfoldable pub digits : Bytes → Option ℕ
unfolding digits_from
digits [] = none
digits (c ∷ s) = digits_from 0 (c ∷ s)

abbrev pub at_most : ℕ → Option ℕ → Option ℕ
at_most limit none = none
at_most limit (some n) = if leb n limit then some n else none

abbrev pub positive : Option ℕ → Option ℤ
positive none = none
positive (some n) = some (pos n)

abbrev pub negative : Option ℕ → Option ℤ
negative none = none
negative (some zero) = some (pos 0)
negative (some (suc n)) = some (negsuc n)

-- `strconv.ParseUint(s, 10, 64)`; an error is `none`.
unfoldable pub parse_uint : Bytes → Option ℕ
unfolding digits
parse_uint s = at_most max_uint64 (digits s)

-- `strconv.ParseInt(s, 10, 64)`, which is `strconv.Atoi` too.
unfoldable pub parse_int : Bytes → Option ℤ
unfolding digits
parse_int [] = none
parse_int (c ∷ s) =
    if c == b'-'
    then negative (at_most (suc max_int64_ℕ) (digits s))
    else positive (at_most max_int64_ℕ (digits (if c == b'+' then s else c ∷ s)))

-- `strings.Join`.
unfoldable pub join : Bytes → List Bytes → Bytes
join sep [] = []
join sep (w ∷ []) = w
join sep (w ∷ v ∷ ws) = w ++ (sep ++ join sep (v ∷ ws))
