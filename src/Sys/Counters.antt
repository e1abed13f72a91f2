-- ===== src/Sys/Counters.antt =====
-- The saturating arithmetic of internal/sys on resource counters: sys.go, job_linux.go, job_windows.go.
-- A uint64 is a number below 2 ^ 64, an int64 an integer; sums and products wrap as Go's do.
use Prim.Native.Nat.{min}
use processkit_go.Prelude.{
  arith, ℤ, pos, negsuc, pos_part, ltb_ℤ, leb_ℤ, ◌+ℤ◌, ◌-ℤ◌, ℕ, zero, suc, ◌+◌, ◌-◌, ◌*◌, ◌/◌, ◌%◌,
  ◌^◌, ◌≤◌, ltb, ◌==◌, not, ◌&&◌, ◌||◌, if◌then◌else◌, ◌≡◌,
}
use native.Mathlib.Nat.{mul_comm, div-lt_iff_lt-mul}

abbrev pub max_uint64 : ℕ
max_uint64 = 18446744073709551615

abbrev pub max_int64_ℕ : ℕ
max_int64_ℕ = 9223372036854775807

abbrev pub max_duration : ℤ
max_duration = pos max_int64_ℕ

-- The int64 of a bit pattern, and the bit pattern of an integer.
abbrev pub signed64 : ℕ → ℤ
signed64 w = if ltb max_int64_ℕ w then negsuc (max_uint64 - w) else pos w

abbrev pub residue64 : ℤ → ℕ
residue64 (pos n) = n % 2 ^ 64
residue64 (negsuc n) = max_uint64 - n % 2 ^ 64

-- `a + b` on int64, and on uint64.
unfoldable pub add_int64 : ℤ → ℤ → ℤ
add_int64 a b = signed64 (residue64 (a +ℤ b))

abbrev pub mul_uint64 : ℕ → ℕ → ℕ
mul_uint64 a b = a * b % 2 ^ 64

-- `saturatingMulU64`.
unfoldable pub saturating_mul_u64 : ℕ → ℕ → ℕ
saturating_mul_u64 a b =
    if not (a == 0) && ltb (max_uint64 / a) b then max_uint64 else mul_uint64 a b

-- `nanosFromUnit`. The product of two integers is made only where neither is negative.
unfoldable pub nanos_from_unit : ℤ → ℤ → ℤ
nanos_from_unit count unit =
    if leb_ℤ unit (pos 0)
    then pos 0
    else if ltb_ℤ count (pos 0) || ltb_ℤ (pos (max_int64_ℕ / pos_part unit)) count
    then max_duration
    else signed64 (mul_uint64 (pos_part count) (pos_part unit))

-- `addDurationSat`.
unfoldable pub add_duration_sat : ℤ → ℤ → ℤ
unfolding add_int64
add_duration_sat a b =
    if ltb_ℤ (pos 0) b && ltb_ℤ (max_duration -ℤ b) a then max_duration else add_int64 a b

-- `addU64Sat`.
unfoldable pub add_u64_sat : ℕ → ℕ → ℕ
add_u64_sat a b = if ltb (max_uint64 - b) a then max_uint64 else (a + b) % 2 ^ 64

-- `add100ns`.
unfoldable pub add_100ns : ℤ → ℤ → ℤ
unfolding add_int64 nanos_from_unit
add_100ns user kernel =
    let sum = add_int64 user kernel in
    if ltb_ℤ user (pos 0) || (ltb_ℤ kernel (pos 0) || ltb_ℤ sum (pos 0))
    then max_duration
    else nanos_from_unit sum (pos 100)

saturating_mul_u64-min :
    (a b : ℕ) → a ≤ max_uint64 → b ≤ max_uint64 → saturating_mul_u64 a b ≡ min (a * b) max_uint64
unfolding saturating_mul_u64
saturating_mul_u64-min zero b ha hb = ground arith
saturating_mul_u64-min (suc a) b ha hb = ground (
  arith,
  div-lt_iff_lt-mul {k = suc a} {x = max_uint64} {y = b} (omega arith),
  mul_comm (suc a) b,
)

nanos_from_unit-min : (c u : ℕ) → nanos_from_unit (pos c) (pos u) ≡ pos (min (c * u) max_int64_ℕ)
unfolding nanos_from_unit
nanos_from_unit-min c zero = ground arith
nanos_from_unit-min c (suc u) =
    ground (arith, div-lt_iff_lt-mul {k = suc u} {x = max_int64_ℕ} {y = c} (omega arith))

add_duration_sat-min :
    (a b : ℕ)
    → a ≤ max_int64_ℕ
    → b ≤ max_int64_ℕ
    → add_duration_sat (pos a) (pos b) ≡ pos (min (a + b) max_int64_ℕ)
unfolding add_duration_sat ◌+ℤ◌ ◌-ℤ◌
add_duration_sat-min a b ha hb = ground arith

add_u64_sat-min :
    (a b : ℕ) → a ≤ max_uint64 → b ≤ max_uint64 → add_u64_sat a b ≡ min (a + b) max_uint64
unfolding add_u64_sat
add_u64_sat-min a b ha hb = ground arith

add_100ns-min :
    (u k : ℕ)
    → u ≤ max_int64_ℕ
    → k ≤ max_int64_ℕ
    → add_100ns (pos u) (pos k) ≡ pos (min ((u + k) * 100) max_int64_ℕ)
unfolding add_100ns ◌+ℤ◌
add_100ns-min u k hu hk = ground (arith)

-- No counter wraps: on uint64 values the product and the sum, and on non-negative int64 values the
-- sum of durations, the sum of 100-nanosecond counters and the conversion of ticks, are the exact
-- results, or the largest value of the type where the exact result is above it.
pub counters_saturate :
    (a b c d : ℕ)
    → a ≤ max_uint64
    → b ≤ max_uint64
    → c ≤ max_int64_ℕ
    → d ≤ max_int64_ℕ
    → (saturating_mul_u64 a b ≡ min (a * b) max_uint64)
      × (add_u64_sat a b ≡ min (a + b) max_uint64)
      × (add_duration_sat (pos c) (pos d) ≡ pos (min (c + d) max_int64_ℕ))
      × (add_100ns (pos c) (pos d) ≡ pos (min ((c + d) * 100) max_int64_ℕ))
      × (nanos_from_unit (pos c) (pos d) ≡ pos (min (c * d) max_int64_ℕ))
counters_saturate a b c d ha hb hc hd = (
  saturating_mul_u64-min a b ha hb,
  add_u64_sat-min a b ha hb,
  add_duration_sat-min c d hc hd,
  add_100ns-min c d hc hd,
  nanos_from_unit-min c d,
)
