-- ===== src/Stats.antt =====
-- stats.go: the snapshots of a group, and the profile of a run. A figure with a Has flag is an `Option`.
-- What each `select` of a sampler chose is a list of choices.
pub mod Peaks
use Prim.Native.Nat.{max}
use processkit_go.Prelude.{
  ℤ, pos, ltb_ℤ, leb_ℤ, ◌-ℤ◌, ℕ, zero, suc, ltb, Bool, true, false, Option, none, some, is_some,
  List, [], ◌∷◌, Bytes, codes, if◌then◌else◌,
}
use processkit_go.Outcome.{Outcome, code_of, exited}
use processkit_go.Errors.{Error, wrapped, Fallible, ok, err}
use processkit_go.Floats.{Floats}
use processkit_go.Sys.Metrics.{ProcMetrics}
use processkit_go.Sys.Stats.{Stats}
use processkit_go.Running.{RunningProcess}
use processkit_go.Group.{Group}

pub record GroupStats : Type 0 where
  pub active_processes : ℕ
  pub cpu_time : Option ℤ
  pub peak_memory : Option ℕ

pub record RunProfile : Type 0 where
  pub exit_code : Option ℤ
  pub duration : ℤ
  pub cpu_time : Option ℤ
  pub peak_memory : Option ℕ
  pub samples : ℕ

-- A millisecond at least.
unfoldable pub clamp_interval : ℤ → ℤ
clamp_interval d = if ltb_ℤ d (pos 1000000) then pos 1000000 else d

unfoldable pub snapshot : Fallible Stats → Fallible GroupStats
snapshot (err e) = err (wrapped (codes "processkit: reading group stats") e)
snapshot (ok s) = ok (record {
  active_processes = s.active_processes;
  cpu_time = s.cpu_time;
  peak_memory = s.peak_memory;
})

-- What the two `select`s of a turn of `SampleStats` chose.
pub data SampleChoice : Type 0 where
  sent_and_ticked sent_and_cancelled cancelled : SampleChoice

module _ {J W : Type 0} (job_stats : J → W → Fallible Stats × W) where
  -- `Group.Stats`.
  unfoldable pub group_stats : Group J → W → Fallible GroupStats × W
  unfolding snapshot
  group_stats g w = let (s, w') = job_stats g.job w in (snapshot s, w')

  -- A turn of the sampler: what it sends, before what the later turns send.
  unfoldable pub sampled :
      SampleChoice → Fallible GroupStats × W → (W → List GroupStats × W) → List GroupStats × W
  sampled choice (err e, w) later = ([], w)
  sampled cancelled (ok s, w) later = ([], w)
  sampled sent_and_cancelled (ok s, w) later = (s ∷ [], w)
  sampled sent_and_ticked (ok s, w) later = let (ss, w') = later w in (s ∷ ss, w')

  -- `SampleStats`: the snapshots sent.
  unfoldable pub sample_stats : List SampleChoice → Group J → W → List GroupStats × W
  unfolding group_stats sampled
  sample_stats [] g w = ([], w)
  sample_stats (choice ∷ choices) g w = sampled choice (group_stats g w) (sample_stats choices g)

-- A metric of a live process; `exited` is the state of `done`.
abbrev pub unless_exited : {A : Type 0} → Bool → Option A → Option A
unless_exited true figure = none
unless_exited false figure = figure

-- `RunningProcess.CPUTime` and `RunningProcess.PeakMemoryBytes`.
unfoldable pub process_cpu_time : RunningProcess → ProcMetrics → Option ℤ
process_cpu_time p m = unless_exited (is_some p.finished) m.cpu_time

unfoldable pub process_peak_memory : RunningProcess → ProcMetrics → Option ℕ
process_peak_memory p m = unless_exited (is_some p.finished) m.peak_memory

-- A tick of the sampler of `Profile`: whether the process had exited before and after the reading.
pub record Tick : Type 0 where
  pub exited_before : Bool
  pub metrics : ProcMetrics
  pub exited_after : Bool

-- The variables that the sampler of `Profile` shares.
pub record Samples : Type 0 where
  pub cpu : Option ℤ
  pub peak : ℕ
  pub has_mem : Bool
  pub samples : ℕ

unfoldable pub no_samples : Samples
no_samples = record { cpu = none; peak = 0; has_mem = false; samples = 0 }

unfoldable pub note_cpu : Option ℤ → Samples → Samples
note_cpu none s = s
note_cpu (some t) s = record s { cpu = some t }

unfoldable pub note_memory : Option ℕ → Samples → Samples
note_memory none s = s
note_memory (some m) s = if ltb s.peak m then record s { peak = m; has_mem = true } else s

unfoldable pub note_metrics : Bool → Bool → ProcMetrics → Samples → Samples
unfolding note_cpu note_memory
note_metrics true after m s = s
note_metrics false true m s = s
note_metrics false false m s = note_memory m.peak_memory (note_cpu m.cpu_time s)

unfoldable pub on_tick : Tick → Samples → Samples
unfolding note_metrics
on_tick t s =
    note_metrics t.exited_before t.exited_after t.metrics (record s { samples = suc s.samples })

-- The ticks up to the end of the process or of the context.
unfoldable pub on_ticks : List Tick → Samples → Samples
unfolding on_tick
on_ticks [] s = s
on_ticks (t ∷ ts) s = on_ticks ts (on_tick t s)

-- `Code` of the outcome that `Wait` returns, which beside an error is the zero `Outcome`.
unfoldable pub exit_code_of : Fallible Outcome → Option ℤ
exit_code_of (ok o) = code_of o
exit_code_of (err e) = code_of (exited (pos 0))

-- `Profile`: the ticks of its sampler, what `Wait` answered and the time since the start. The error is
-- that of `Wait`.
unfoldable pub profile : List Tick → Fallible Outcome → ℤ → RunProfile
unfolding on_ticks no_samples exit_code_of
profile ticks waited elapsed =
    let s = on_ticks ticks no_samples in
    record {
      exit_code = exit_code_of waited;
      duration = elapsed;
      cpu_time = s.cpu;
      peak_memory = if s.has_mem then some s.peak else none;
      samples = s.samples;
    }

module _ (f : Floats) where
  unfoldable pub average : Option ℤ → ℤ → Option f.Float
  average none duration = none
  average (some cpu) duration =
      if leb_ℤ duration (pos 0) then none else some (f.div (f.seconds cpu) (f.seconds duration))

  -- `AvgCPU`.
  unfoldable pub avg_cpu : RunProfile → Option f.Float
  unfolding average
  avg_cpu p = average p.cpu_time p.duration
