-- ===== src/Result.antt =====
-- result.go: the captured result of a run, its success rule, and the interpretations behind the
-- verbs Run, ExitCode and Probe. A byte slice and a string are both `Bytes`.
pub mod Newlines
pub mod Trim
pub mod Verbs
use processkit_go.Prelude.{
  ℤ, pos, eqb_ℤ, ℕ, zero, suc, Bool, true, false, ◌||◌, Option, none, some, List, [], ◌∷◌, Bytes,
  ◌==◌, if◌then◌else◌, any,
}
use processkit_go.Outcome.{Outcome, Mechanism, mechanism_unknown, code_of}
use processkit_go.Errors.{Error, ExitError, exit_error, Fallible, ok, err, ◌>>=◌}
use processkit_go.Result.Newlines.{normalize_newlines}

-- `bytes.NewReader` over a buffer, or a reader of the caller's.
pub data Reader : Type 0 where
  bytes_reader : Bytes → Reader
  external_reader : ℕ → Reader

-- `Invocation` of runner.go.
pub record Invocation : Type 0 where
  pub program : Bytes
  pub args : List Bytes
  pub dir : Bytes
  pub env : Option (List Bytes)
  pub ok_codes : List ℤ
  pub timeout : ℤ
  pub stdin : Option Reader

pub record Result : Type 0 where
  pub program : Bytes
  pub args : List Bytes
  pub outcome : Outcome
  pub stdout : Bytes
  pub stderr : Bytes
  pub duration : ℤ
  pub ok_codes : List ℤ
  pub mechanism : Mechanism

unfoldable pub new_result : Invocation → Outcome → Bytes → Bytes → Result
new_result inv outcome stdout stderr = record {
  program = inv.program;
  args = inv.args;
  outcome = outcome;
  stdout = stdout;
  stderr = normalize_newlines stderr;
  duration = pos 0;
  ok_codes = inv.ok_codes;
  mechanism = mechanism_unknown;
}

-- `Result.Stdout`.
unfoldable pub stdout_text : Result → Bytes
stdout_text r = normalize_newlines r.stdout

-- The test shared by `Result.Success` and `stageOutcome.clean`: the code is 0 or an ok-code.
abbrev pub accepts : List ℤ → Option ℤ → Bool
accepts ok_codes none = false
accepts ok_codes (some code) = if eqb_ℤ code (pos 0) then true else any (λ c. eqb_ℤ code c) ok_codes

-- `Result.Success`.
unfoldable pub success : Result → Bool
success r = accepts r.ok_codes (code_of r.outcome)

unfoldable pub to_exit_error : Result → Error
unfolding stdout_text
to_exit_error r = exit_error (record {
  program = r.program;
  outcome = r.outcome;
  stdout = stdout_text r;
  stderr = r.stderr;
  mechanism = r.mechanism;
})

-- `Result.Err`.
unfoldable pub err_of : Result → Option Error
err_of r = if success r then none else some (to_exit_error r)

-- `strings.TrimRight` for a set of single bytes.
unfoldable pub trim_right : (ℕ → Bool) → Bytes → Bytes
trim_right cut [] = []
trim_right cut (c ∷ s) = elim (trim_right cut s) [
  | [] ↦ if cut c then [] else c ∷ []
  | d ∷ t ↦ c ∷ d ∷ t
]

-- The bytes of " \t\r\n".
abbrev pub is_space : ℕ → Bool
is_space c = c == 32 || (c == 9 || (c == 13 || c == 10))

unfoldable pub result_run : Result → Fallible Bytes
result_run res = elim (err_of res) [
  | some e ↦ err e
  | none ↦ ok (trim_right is_space (stdout_text res))
]

unfoldable pub result_exit_code : Result → Fallible ℤ
result_exit_code res = elim (code_of res.outcome) [
  | none ↦ err (to_exit_error res)
  | some code ↦ ok code
]

abbrev probe_code : Result → ℤ → Fallible Bool
probe_code res code =
    if eqb_ℤ code (pos 0)
    then ok true
    else if eqb_ℤ code (pos 1)
    then ok false
    else err (to_exit_error res)

unfoldable pub result_probe : Result → Fallible Bool
result_probe res = elim (code_of res.outcome) [
  | none ↦ err (to_exit_error res)
  | some code ↦ probe_code res code
]
