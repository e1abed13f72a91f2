-- ===== src/Testkit/Scripted.antt =====
-- `Reply` and `ScriptedRunner` of processkittest/doubles.go. A rule's predicate is an `Option`: nil is
-- a prefix rule. A rule has at least one reply, its first: the builders make no other, since
-- `OnSequence` panics (`none`) without one.
pub mod Play
pub mod Match
use processkit_go.Prelude.{
  ℤ, pos, ℕ, suc, ◌-◌, leb, ltb, Bool, true, false, ◌&&◌, Option, none, some, List, [], ◌∷◌, ◌++◌,
  Bytes, bytes_eq, if◌then◌else◌, length, get_or,
}
use processkit_go.Outcome.{Outcome, exited, signalled, timed_out}
use processkit_go.Errors.{Error, ContextError, cancel_error, not_found_error, Fallible, ok, err}
use processkit_go.Result.{Invocation, Result, new_result}

pub record Reply : Type 0 where
  pub outcome : Outcome
  pub stdout : Bytes
  pub stderr : Bytes
  pub failure : Option Error
  pub pending : Bool

abbrev plain : Outcome → Reply
plain o = record { outcome = o; stdout = []; stderr = []; failure = none; pending = false }

-- `OK`.
unfoldable pub ok_reply : Bytes → Reply
ok_reply stdout = record (plain (exited (pos 0))) { stdout = stdout }

unfoldable pub fail : ℤ → Bytes → Reply
fail code stderr = record (plain (exited code)) { stderr = stderr }

-- `TimedOut`, `Signalled`, `Err` and `Pending` of the package.
unfoldable pub timed_out_reply : Reply
timed_out_reply = plain timed_out

unfoldable pub signalled_reply : ℤ → Reply
signalled_reply signal = plain (signalled (some signal))

unfoldable pub err_reply : Error → Reply
err_reply e = record (plain (exited (pos 0))) { failure = some e }

unfoldable pub pending_reply : Reply
pending_reply = record (plain (exited (pos 0))) { pending = true }

-- `Reply.resolve`; `ctx_err` is `ctx.Err()` once the context is done.
unfoldable pub resolve : Option ContextError → Reply → Invocation → Fallible Result
resolve ctx_err r inv =
    if r.pending
    then err (cancel_error inv.program ctx_err)
    else elim r.failure [ some e ↦ err e | none ↦ ok (new_result inv r.outcome r.stdout r.stderr) ]

pub record Rule : Type 0 where
  pub prefix : List Bytes
  pub predicate : Option (Invocation → Bool)
  pub first : Reply
  pub more : List Reply
  pub cursor : ℕ

pub record ScriptedRunner : Type 0 where
  pub rules : List Rule
  pub fallback : Option Reply

unfoldable pub new_scripted_runner : ScriptedRunner
new_scripted_runner = record { rules = []; fallback = none }

abbrev add_rule : Rule → ScriptedRunner → ScriptedRunner
add_rule ru s = record s { rules = s.rules ++ ru ∷ [] }

unfoldable pub on : List Bytes → Reply → ScriptedRunner → ScriptedRunner
on prefix reply s =
    add_rule (record { prefix = prefix; predicate = none; first = reply; more = []; cursor = 0 }) s

-- No replies are a panic.
unfoldable pub on_sequence : List Bytes → List Reply → ScriptedRunner → Option ScriptedRunner
on_sequence prefix [] s = none
on_sequence prefix (r ∷ rs) s =
    some
      (add_rule (record { prefix = prefix; predicate = none; first = r; more = rs; cursor = 0 }) s)

unfoldable pub when : (Invocation → Bool) → Reply → ScriptedRunner → ScriptedRunner
when predicate reply s =
    add_rule
      (record { prefix = []; predicate = some predicate; first = reply; more = []; cursor = 0 }) s

unfoldable pub with_fallback : Reply → ScriptedRunner → ScriptedRunner
with_fallback reply s = record s { fallback = some reply }

-- The loop over the prefix, after its length has been compared.
unfoldable pub starts_with : List Bytes → List Bytes → Bool
starts_with [] full = true
starts_with (p ∷ ps) [] = false
starts_with (p ∷ ps) (a ∷ full) = bytes_eq a p && starts_with ps full

-- `rule.matches`.
unfoldable pub rule_matches : Rule → Invocation → Bool
rule_matches ru inv = elim ru.predicate [
  | some predicate ↦ predicate inv
  | none ↦
      (let full = inv.program ∷ inv.args in
        if ltb (length full) (length ru.prefix) then false else starts_with ru.prefix full)
]

abbrev pub replies_of : Rule → List Reply
replies_of ru = ru.first ∷ ru.more

-- The body of the loop at a rule that matches: its reply, and the cursor moved on. An exhausted
-- sequence repeats the last reply.
unfoldable pub play : Rule → Reply × Rule
play ru =
    if leb (length (replies_of ru)) ru.cursor
    then (get_or (replies_of ru) (length (replies_of ru) - 1) ru.first, ru)
    else (get_or (replies_of ru) ru.cursor ru.first, record ru { cursor = suc ru.cursor })

-- The loop of `ScriptedRunner.match`, with the rules after it.
unfoldable pub match_rules : Invocation → List Rule → Option Reply × List Rule
match_rules inv [] = (none, [])
match_rules inv (ru ∷ rules) =
    let (later, rules') = match_rules inv rules in
    let (reply, ru') = play ru in
    if rule_matches ru inv then (some reply, ru' ∷ rules) else (later, ru ∷ rules')

abbrev pub or_else {ℓ} : {A : Type ℓ} → Option A → Option A → Option A
or_else none d = d
or_else (some a) d = some a

-- `ScriptedRunner.Output`, with the runner after it.
unfoldable pub output :
    Option ContextError → Invocation → ScriptedRunner → Fallible Result × ScriptedRunner
output ctx_err inv s =
    let (reply, rules') = match_rules inv s.rules in
    let s' = record s { rules = rules' } in
    elim (or_else reply s.fallback) [
      | none ↦ (err (not_found_error inv.program []), s')
      | some r ↦ (resolve ctx_err r inv, s')
    ]
