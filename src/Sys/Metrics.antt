-- ===== src/Sys/Metrics.antt =====
-- internal/sys/proc_linux.go: a process's CPU time and peak memory from its files under /proc, whose
-- texts are parameters.
use Prim.Native.Nat.{min}
use processkit_go.Prelude.{
  ◌+◌, ◌*◌, ◌≤◌, ◌+ℤ◌, ℤ, pos, ltb_ℤ, ℕ, ◌||◌, Option, none, some, List, [], ◌∷◌, ◌++◌, Bytes,
  codes, if◌then◌else◌, get_elem?, ◌≡◌, ap, ◌∙◌, All, ◌≢◌, arith,
}
use processkit_go.Text.{fields, after_last, parse_int, parse_uint, cut_prefix, split_lines, join}
use processkit_go.Text.Fields.{IsWord, fields-join, after_last-append, fields-space}
use processkit_go.Sys.Counters.{
  nanos_from_unit, saturating_mul_u64, add_int64, max_duration, max_int64_ℕ,
}

-- `ProcMetrics`; a metric that is not there is `none`.
pub record ProcMetrics : Type 0 where
  pub cpu_time : Option ℤ
  pub peak_memory : Option ℕ

-- Nanoseconds per clock tick: 1e9 / userHZ.
abbrev pub tick : ℤ
tick = pos 10000000

-- The sum of the two tick counts, which is clamped if it wrapped.
abbrev pub clamp_ticks : ℤ → ℤ
clamp_ticks ticks = if ltb_ℤ ticks (pos 0) then max_duration else ticks

unfoldable pub ticks_time : Option ℤ → Option ℤ → Option ℤ
ticks_time (some utime) (some stime) =
    if ltb_ℤ utime (pos 0) || ltb_ℤ stime (pos 0)
    then none
    else some (nanos_from_unit (clamp_ticks (add_int64 utime stime)) tick)
ticks_time none stime = none
ticks_time (some utime) none = none

abbrev pub parsed : Option Bytes → Option ℤ
parsed none = none
parsed (some text) = parse_int text

-- The fields after the name: utime and stime are those at 11 and 12. Where there is no field at 12
-- there are fewer than 13.
unfoldable pub fields_time : List Bytes → Option ℤ
unfolding ticks_time
fields_time fs = ticks_time (parsed (get_elem? fs 11)) (parsed (get_elem? fs 12))

abbrev pub tail_time : Option Bytes → Option ℤ
tail_time none = none
tail_time (some tail) = fields_time (fields tail)

-- `procCPUTime`, of the text of /proc/<pid>/stat; none if it cannot be read.
unfoldable pub proc_cpu_time : Option Bytes → Option ℤ
unfolding fields_time
proc_cpu_time none = none
proc_cpu_time (some stat) = tail_time (after_last b')' stat)

abbrev pub kilobytes : Option ℕ → Option ℕ
kilobytes none = none
kilobytes (some kb) = some (saturating_mul_u64 kb 1024)

abbrev pub first_field : List Bytes → Option ℕ
first_field [] = none
first_field (f ∷ fs) = kilobytes (parse_uint f)

-- The loop over the lines of /proc/<pid>/status, up to the first that starts with "VmHWM:".
unfoldable pub peak_in : List Bytes → Option ℕ
peak_in [] = none
peak_in (line ∷ lines) = elim (cut_prefix (codes "VmHWM:") line) [
  | some rest ↦ first_field (fields rest)
  | none ↦ peak_in lines
]

-- `procPeakRSS`.
unfoldable pub proc_peak_rss : Option Bytes → Option ℕ
unfolding peak_in
proc_peak_rss none = none
proc_peak_rss (some status) = peak_in (split_lines status)

-- `processMetrics` of a process with these files.
unfoldable pub process_metrics : Option Bytes → Option Bytes → ProcMetrics
process_metrics stat status = record {
  cpu_time = proc_cpu_time stat;
  peak_memory = proc_peak_rss status;
}

ticks_time-min :
    (u t : ℕ)
    → u ≤ max_int64_ℕ
    → t ≤ max_int64_ℕ
    → ticks_time (some (pos u)) (some (pos t)) ≡ some (pos (min ((u + t) * 10000000) max_int64_ℕ))
unfolding ticks_time nanos_from_unit add_int64 ◌+ℤ◌
ticks_time-min u t hu ht = ground arith

-- Whatever bytes the process's name has, spaces and parentheses included, the CPU time that is read
-- from a stat line is the sum of the two tick counts in nanoseconds, or the largest duration where the
-- sum is above it. The line is any text up to the name's closing parenthesis, then words without
-- parentheses that single spaces separate, of which those at 11 and 12 are the counts.
pub proc_cpu_time-stat :
    (named : Bytes) (fs : List Bytes) (u t : ℕ)
    → All IsWord fs
    → All (λ c. c ≢ b')') (32 ∷ (join (32 ∷ []) fs ++ 10 ∷ []))
    → parsed (get_elem? fs 11) ≡ some (pos u)
    → parsed (get_elem? fs 12) ≡ some (pos t)
    → u ≤ max_int64_ℕ
    → t ≤ max_int64_ℕ
    → proc_cpu_time (some (named ++ b')' ∷ (32 ∷ (join (32 ∷ []) fs ++ 10 ∷ []))))
      ≡ some (pos (min ((u + t) * 10000000) max_int64_ℕ))
unfolding proc_cpu_time fields_time
proc_cpu_time-stat named fs u t words plain at11 at12 hu ht =
    ap tail_time (after_last-append b')' named _ plain)
    ∙ (ap fields_time (fields-space _ ∙ fields-join fs words)
        ∙ rw (at11, at12) (ticks_time-min u t hu ht))
