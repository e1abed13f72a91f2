-- ===== src/Pipeline.antt =====
-- pipeline.go: the stages of a chain and the pipefail fold over their outcomes.
pub mod Fold
pub mod Output
pub mod Teardown
pub mod Returns
pub mod Success
use processkit_go.Prelude.{
  ℤ, pos, eqb_ℤ, Bool, true, false, not, ◌&&◌, Option, none, some, List, [], ◌∷◌, ◌++◌, Bytes,
  if◌then◌else◌,
}
use processkit_go.Outcome.{Outcome, Mechanism, code_of, signal_of}
use processkit_go.Result.{Result, accepts}

pub record StageOutcome : Type 0 where
  pub program : Bytes
  pub args : List Bytes
  pub outcome : Outcome
  pub stderr : Bytes
  pub ok_codes : List ℤ
  pub unchecked : Bool

-- `stageOutcome.clean`.
unfoldable pub clean : StageOutcome → Bool
clean s = accepts s.ok_codes (code_of s.outcome)

abbrev pub sig_pipe : ℤ
sig_pipe = pos 13

unfoldable pub is_sigpipe : Outcome → Bool
is_sigpipe o = elim (signal_of o) [ none ↦ false | some sig ↦ eqb_ℤ sig sig_pipe ]

-- `!s.unchecked && !s.clean()`.
abbrev pub failed : StageOutcome → Bool
failed s = not s.unchecked && not (clean s)

-- The loop that collects the checked failures.
unfoldable pub failures : List StageOutcome → List StageOutcome
failures [] = []
failures (s ∷ rest) = let later = failures rest in if failed s then s ∷ later else later

-- The loop that looks for the first failure that is no SIGPIPE, with `failures[0]` as the default.
unfoldable pub first_culprit : StageOutcome → List StageOutcome → StageOutcome
first_culprit blamed [] = blamed
first_culprit blamed (s ∷ rest) =
    let later = first_culprit blamed rest in if not (is_sigpipe s.outcome) then s else later

-- An exempt last stage's non-zero exit code is added to its ok-codes.
unfoldable pub widened_ok_codes : StageOutcome → List ℤ
widened_ok_codes last =
    if last.unchecked
    then elim (code_of last.outcome) [
      | none ↦ last.ok_codes
      | some code ↦ if not (clean last) then last.ok_codes ++ code ∷ [] else last.ok_codes
    ]
    else last.ok_codes

unfoldable pub last_of : StageOutcome → List StageOutcome → StageOutcome
last_of s [] = s
last_of s (t ∷ rest) = last_of t rest

abbrev pub speak : StageOutcome → List ℤ → Bytes → Mechanism → ℤ → Result
speak s ok_codes last_stdout mechanism duration = record {
  program = s.program;
  args = s.args;
  outcome = s.outcome;
  stdout = last_stdout;
  stderr = s.stderr;
  duration = duration;
  ok_codes = ok_codes;
  mechanism = mechanism;
}

-- `pipefail`. The source indexes `stages[len(stages)-1]`: the stages are a first one and the rest.
unfoldable pub pipefail : StageOutcome → List StageOutcome → Bytes → Mechanism → ℤ → Result
pipefail first rest last_stdout mechanism duration =
    let last = last_of first rest in
    elim (failures (first ∷ rest)) [
      | [] ↦ speak last (widened_ok_codes last) last_stdout mechanism duration
      | f ∷ fs ↦
          let blamed = first_culprit f (f ∷ fs) in
          speak blamed blamed.ok_codes last_stdout mechanism duration
    ]
