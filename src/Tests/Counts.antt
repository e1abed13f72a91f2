-- ===== src/Tests/Counts.antt =====
-- Counters and process metrics (internal/sys) at concrete inputs.
use Prim.Native.Nat.{min}
use processkit_go.Prelude.{arith, pos, ◌+◌, ◌*◌, some, List, [], ◌∷◌, ◌++◌, Bytes, codes, ◌≡◌, refl}
use processkit_go.Text.{join, parse_int}
use processkit_go.Sys.Counters.{
  max_uint64, max_int64_ℕ, saturating_mul_u64, add_u64_sat, add_duration_sat, add_100ns,
  nanos_from_unit, counters_saturate,
}
use processkit_go.Sys.Metrics.{proc_cpu_time, proc_cpu_time-stat}

counters_saturate_example :
    (saturating_mul_u64 max_uint64 2 ≡ min (max_uint64 * 2) max_uint64)
    × (add_u64_sat max_uint64 2 ≡ min (max_uint64 + 2) max_uint64)
    × (add_duration_sat (pos 7) (pos 100) ≡ pos (min (7 + 100) max_int64_ℕ))
    × (add_100ns (pos 7) (pos 100) ≡ pos (min ((7 + 100) * 100) max_int64_ℕ))
    × (nanos_from_unit (pos 7) (pos 100) ≡ pos (min (7 * 100) max_int64_ℕ))
counters_saturate_example =
    counters_saturate max_uint64 2 7 100 (omega arith) (omega arith) (omega arith) (omega arith)

-- The fields after the name: eleven, then utime and stime.
abbrev stat_fields : List Bytes
stat_fields =
    codes "S"
    ∷ codes "1"
    ∷ codes "1"
    ∷ codes "1"
    ∷ codes "0"
    ∷ codes "1"
    ∷ codes "4"
    ∷ codes "5"
    ∷ codes "0"
    ∷ codes "0"
    ∷ codes "0"
    ∷ codes "12"
    ∷ codes "3"
    ∷ []

-- A process named ") 9 (".
proc_cpu_time-stat_example :
    proc_cpu_time (some (codes "77 () 9 (" ++ 41 ∷ (32 ∷ (join (32 ∷ []) stat_fields ++ 10 ∷ []))))
    ≡ some (pos (min ((12 + 3) * 10000000) max_int64_ℕ))
proc_cpu_time-stat_example =
    proc_cpu_time-stat (codes "77 () 9 (") stat_fields 12 3 (ground arith)
      (unfold join in ground arith) (unfold parse_int in refl) (unfold parse_int in refl)
      (omega arith) (omega arith)
