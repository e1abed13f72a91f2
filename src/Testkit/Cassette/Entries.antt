-- ===== src/Testkit/Cassette/Entries.antt =====
-- Keys and single entries of processkittest/cassette.go.
use processkit_go.Prelude.{
  ℤ, true, some, List, [], ◌∷◌, Bytes, bytes_eq_refl, bytes_eq_sound, ◌≡◌, refl, arith,
}
use processkit_go.Outcome.{Outcome, exited, signalled, timed_out, code_of, signal_of, has_timed_out}
use processkit_go.Errors.{ok}
use processkit_go.Result.{Invocation, Result}
use processkit_go.Testkit.Cassette.{Key, args_eq, key_eq, entry_of, outcome_of, validate_outcome}

args_eq_refl : (xs : List Bytes) → args_eq xs xs ≡ true
unfolding args_eq
args_eq_refl [] = refl
args_eq_refl (x ∷ xs) = ground (arith, bytes_eq_refl x, args_eq_refl xs)

args_eq_sound : (xs ys : List Bytes) → args_eq xs ys ≡ true → xs ≡ ys
unfolding args_eq
args_eq_sound [] [] h = refl
args_eq_sound (x ∷ xs) (y ∷ ys) h = ground (arith, bytes_eq_sound x y, args_eq_sound xs ys)
args_eq_sound [] (y ∷ ys) h = cc
args_eq_sound (x ∷ xs) [] h = cc

pub key_eq_refl : (k : Key) → key_eq k k ≡ true
unfolding key_eq
key_eq_refl k = ground (arith, bytes_eq_refl k.program, args_eq_refl k.args, bytes_eq_refl k.dir)

pub key_eq_sound : (a b : Key) → key_eq a b ≡ true → a ≡ b
unfolding key_eq
key_eq_sound a b h = ground (
  arith,
  bytes_eq_sound a.program b.program,
  args_eq_sound a.args b.args,
  bytes_eq_sound a.dir b.dir,
)

-- The outcomes that Go's public constructors build.
pub data IsRecordable (o : Outcome) : Type 0 where
  exit : (code : ℤ) → o ≡ exited code → IsRecordable o
  kill : (signal : ℤ) → o ≡ signalled (some signal) → IsRecordable o
  deadline : o ≡ timed_out → IsRecordable o

pub validate_outcome-entry_of :
    (inv : Invocation) (res : Result)
    → IsRecordable res.outcome
    → validate_outcome (entry_of inv res) ≡ true
unfolding validate_outcome entry_of exited signalled timed_out code_of signal_of has_timed_out
validate_outcome-entry_of inv res (exit c e) = ground arith
validate_outcome-entry_of inv res (kill s e) = ground arith
validate_outcome-entry_of inv res (deadline e) = ground arith

pub outcome_of-entry_of :
    (inv : Invocation) (res : Result)
    → IsRecordable res.outcome
    → outcome_of (entry_of inv res) ≡ ok res.outcome
unfolding outcome_of validate_outcome entry_of exited signalled timed_out code_of signal_of
    has_timed_out
outcome_of-entry_of inv res (exit c e) = ground arith
outcome_of-entry_of inv res (kill s e) = ground arith
outcome_of-entry_of inv res (deadline e) = ground arith
