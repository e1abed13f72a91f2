-- ===== src/Tests/Reports.antt =====
-- What is shown to a user: an error's text (errors.go) and a profile (stats.go), at concrete inputs.
use processkit_go.Prelude.{
  ℤ, pos, ltb, true, false, none, some, List, [], ◌∷◌, Bytes, All, length, ◌≡◌, refl, if◌then◌else◌,
}
use processkit_go.Outcome.{exited}
use processkit_go.Errors.{ok}
use processkit_go.Errors.Render.{
  runes, runes_within, encode, encode_all, sanitize, sanitize_runes, escape, is_layout, is_control,
  is_bidi,
}
use processkit_go.Errors.Safe.{IsSafe}
use processkit_go.Errors.Utf8.{sanitize-IsSafe}
use processkit_go.Sys.Metrics.{ProcMetrics}
use processkit_go.Stats.{Tick, profile}
use processkit_go.Stats.Peaks.{readings, last_cpu, largest, profile-readings}

-- A terminal escape, a right-to-left override and an invalid byte.
abbrev hostile : Bytes
hostile = 27 ∷ 91 ∷ 226 ∷ 128 ∷ 174 ∷ 255 ∷ []

-- The text "\x1b[\u202e" and the replacement character.
hostile_escaped :
    sanitize hostile
    ≡ 92 ∷ 120 ∷ 49 ∷ 98 ∷ 91 ∷ 92 ∷ 117 ∷ 50 ∷ 48 ∷ 50 ∷ 101 ∷ 239 ∷ 191 ∷ 189 ∷ []
unfolding sanitize runes runes_within sanitize_runes escape is_layout is_control is_bidi encode_all
    encode
hostile_escaped = refl

sanitize-IsSafe_example : All IsSafe (runes (sanitize hostile))
sanitize-IsSafe_example = sanitize-IsSafe hostile

abbrev reading : ℤ → ProcMetrics
reading cpu = record { cpu_time = some cpu; peak_memory = some 4096 }

abbrev ticks : List Tick
ticks =
    record { exited_before = false; metrics = reading (pos 10); exited_after = false }
    ∷ record { exited_before = false; metrics = reading (pos 99); exited_after = true }
    ∷ []

profile-readings_example :
    ((profile ticks (ok (exited (pos 0))) (pos 50)).samples ≡ length ticks)
    × ((profile ticks (ok (exited (pos 0))) (pos 50)).cpu_time ≡ last_cpu none (readings ticks))
    × ((profile ticks (ok (exited (pos 0))) (pos 50)).peak_memory
        ≡ (if ltb 0 (largest (readings ticks)) then some (largest (readings ticks)) else none))
profile-readings_example = profile-readings ticks (ok (exited (pos 0))) (pos 50)
