-- ===== src/Tests/Results.antt =====
-- Results, verbs and line ends at concrete inputs (result.go).

use processkit_go.Prelude.{pos, [], ◌∷◌, Bytes, codes, ◌≡◌, refl}
use processkit_go.Outcome.{has_timed_out}
use processkit_go.Errors.{ok, err}
use processkit_go.Result.{
  result_run, result_exit_code, result_probe, stdout_text, trim_right, is_space, to_exit_error,
}
use processkit_go.Result.Newlines.{normalize_newlines}
use processkit_go.Tests.Samples.{exit_with, deadline, result_with}

abbrev mixed : Bytes
mixed = 97 ∷ 13 ∷ 10 ∷ 98 ∷ 13 ∷ 99 ∷ 13 ∷ 13 ∷ 10 ∷ []

mixed_normalised : normalize_newlines mixed ≡ 97 ∷ 10 ∷ 98 ∷ 10 ∷ 99 ∷ 10 ∷ 10 ∷ []
unfolding normalize_newlines
mixed_normalised = refl

trimmed : trim_right is_space (codes "v1  ") ≡ codes "v1"
unfolding trim_right
trimmed = refl

-- 3 is an ok-code of the sample.
accepted : result_run (result_with (exit_with (pos 3)) (codes "v1  ")) ≡ ok (codes "v1")
unfolding result_run processkit_go.Result.err_of processkit_go.Result.success
    processkit_go.Outcome.code_of stdout_text normalize_newlines trim_right
accepted = refl

timed_out_probe :
    result_probe (result_with deadline []) ≡ err (to_exit_error (result_with deadline []))
unfolding result_probe processkit_go.Outcome.code_of
timed_out_probe = refl
