-- ===== src/Stats/Peaks.antt =====
-- stats.go: what a profile reports of its samples.
use Prim.Native.Nat.{max}
use processkit_go.Prelude.{
  arith, ℤ, ℕ, suc, ◌+◌, ltb, Bool, true, false, Option, none, some, List, [], ◌∷◌, length, ◌≡◌,
  refl, ap, ◌∙◌, sym, if◌then◌else◌,
}
use processkit_go.Outcome.{Outcome}
use processkit_go.Errors.{Fallible}
use processkit_go.Sys.Metrics.{ProcMetrics}
use processkit_go.Stats.{
  Tick, Samples, note_cpu, note_memory, note_metrics, on_tick, on_ticks, no_samples, profile,
}

-- The readings that count: those of a process that had exited neither before nor after.
abbrev counted : Bool → Bool → ProcMetrics → List ProcMetrics → List ProcMetrics
counted true after m ms = ms
counted false true m ms = ms
counted false false m ms = m ∷ ms

pub readings : List Tick → List ProcMetrics
readings [] = []
readings (t ∷ ts) = counted t.exited_before t.exited_after t.metrics (readings ts)

-- The last CPU time that was read, or the one before.
abbrev or_earlier : Option ℤ → Option ℤ → Option ℤ
or_earlier none earlier = earlier
or_earlier (some t) earlier = some t

pub last_cpu : Option ℤ → List ProcMetrics → Option ℤ
last_cpu earlier [] = earlier
last_cpu earlier (m ∷ ms) = last_cpu (or_earlier m.cpu_time earlier) ms

abbrev or_zero : Option ℕ → ℕ
or_zero none = 0
or_zero (some m) = m

pub largest : List ProcMetrics → ℕ
largest [] = 0
largest (m ∷ ms) = max (or_zero m.peak_memory) (largest ms)

-- The state `s'` has the readings `ms` beyond those of `s`.
abbrev Noted : List ProcMetrics → Samples → Samples → Type 0
Noted ms s s' =
    (s'.cpu ≡ last_cpu s.cpu ms)
    × (s'.peak ≡ max s.peak (largest ms))
    × (s'.has_mem ≡ ltb 0 s'.peak)

note_memory-Noted :
    (m : Option ℕ) (s : Samples)
    → s.has_mem ≡ ltb 0 s.peak
    → ((note_memory m s).cpu ≡ s.cpu)
      × ((note_memory m s).peak ≡ max s.peak (or_zero m))
      × ((note_memory m s).has_mem ≡ ltb 0 (note_memory m s).peak)
      × ((note_memory m s).samples ≡ s.samples)
unfolding note_memory
note_memory-Noted none s h = (refl, omega arith, h, refl)
note_memory-Noted (some m) s h = go (ltb s.peak m) refl
  where
    go :
        (b : Bool)
        → ltb s.peak m ≡ b
        → ((if b then record s { peak = m; has_mem = true } else s).cpu ≡ s.cpu)
          × ((if b then record s { peak = m; has_mem = true } else s).peak ≡ max s.peak m)
          × ((if b then record s { peak = m; has_mem = true } else s).has_mem
              ≡ ltb 0 (if b then record s { peak = m; has_mem = true } else s).peak)
          × ((if b then record s { peak = m; has_mem = true } else s).samples ≡ s.samples)
    go true e = (refl, ground arith, ground arith, refl)
    go false e = (refl, ground arith, h, refl)

note_cpu_lem :
    (t : Option ℤ) (s : Samples)
    → ((note_cpu t s).cpu ≡ or_earlier t s.cpu)
      × ((note_cpu t s).peak ≡ s.peak)
      × ((note_cpu t s).has_mem ≡ s.has_mem)
      × ((note_cpu t s).samples ≡ s.samples)
unfolding note_cpu
note_cpu_lem none s = (refl, refl, refl, refl)
note_cpu_lem (some t) s = (refl, refl, refl, refl)

note_metrics-Noted :
    (a b : Bool) (m : ProcMetrics) (s : Samples)
    → s.has_mem ≡ ltb 0 s.peak
    → Noted (counted a b m []) s (note_metrics a b m s)
      × ((note_metrics a b m s).samples ≡ s.samples)
unfolding note_metrics largest last_cpu
note_metrics-Noted true b m s h = ((refl, omega arith, h), refl)
note_metrics-Noted false true m s h = ((refl, omega arith, h), refl)
note_metrics-Noted false false m s h =
    let before = note_cpu_lem m.cpu_time s in
    let after =
      note_memory-Noted m.peak_memory (note_cpu m.cpu_time s)
        (before.2 ∙ (h ∙ ap (ltb 0) (sym before.1))) in
    ((after.0 ∙ before.0, omega (arith, after.1, before.1), after.2), after.3 ∙ before.3)

last_cpu-counted :
    (a b : Bool) (m : ProcMetrics) (earlier : Option ℤ) (ms : List ProcMetrics)
    → last_cpu (last_cpu earlier (counted a b m [])) ms ≡ last_cpu earlier (counted a b m ms)
unfolding last_cpu
last_cpu-counted true b m earlier ms = refl
last_cpu-counted false true m earlier ms = refl
last_cpu-counted false false m earlier ms = refl

largest-counted :
    (a b : Bool) (m : ProcMetrics) (ms : List ProcMetrics)
    → largest (counted a b m ms) ≡ max (largest (counted a b m [])) (largest ms)
unfolding largest
largest-counted true b m ms = omega arith
largest-counted false true m ms = omega arith
largest-counted false false m ms = omega arith

-- The variables of the sampler after all ticks.
on_ticks-Noted :
    (ts : List Tick) (s : Samples)
    → s.has_mem ≡ ltb 0 s.peak
    → Noted (readings ts) s (on_ticks ts s) × ((on_ticks ts s).samples ≡ s.samples + length ts)
unfolding on_ticks on_tick readings largest last_cpu
on_ticks-Noted [] s h = ((refl, omega arith, h), omega arith)
on_ticks-Noted (t ∷ ts) s h =
    let start = record s { samples = suc s.samples } in
    let one = note_metrics-Noted t.exited_before t.exited_after t.metrics start h in
    let rest =
      on_ticks-Noted ts (note_metrics t.exited_before t.exited_after t.metrics start) one.0.2 in
    (
      (
        rest.0.0
            ∙ (ap (λ c. last_cpu c (readings ts)) one.0.0
                ∙ last_cpu-counted t.exited_before t.exited_after t.metrics s.cpu (readings ts)),
        omega (
          arith,
          rest.0.1,
          one.0.1,
          largest-counted t.exited_before t.exited_after t.metrics (readings ts),
        ),
        rest.0.2,
      ),
      omega (arith, rest.1, one.1),
    )

-- A profile counts every tick; its CPU time is the last that was read of the running process, and its peak
-- memory the largest that was read, if that is above 0.
pub profile-readings :
    (ticks : List Tick) (waited : Fallible Outcome) (elapsed : ℤ)
    → ((profile ticks waited elapsed).samples ≡ length ticks)
      × ((profile ticks waited elapsed).cpu_time ≡ last_cpu none (readings ticks))
      × ((profile ticks waited elapsed).peak_memory
          ≡ (if ltb 0 (largest (readings ticks)) then some (largest (readings ticks)) else none))
unfolding profile no_samples
profile-readings ticks waited elapsed =
    let all = on_ticks-Noted ticks no_samples refl in
    let peak : (on_ticks ticks no_samples).peak ≡ largest (readings ticks) =
      omega (arith, all.0.1) in
    (
      omega (arith, all.1),
      all.0.0,
      ap (λ b. if b then some (on_ticks ticks no_samples).peak else none) all.0.2
          ∙ ap (λ p. if ltb 0 p then some p else none) peak,
    )
