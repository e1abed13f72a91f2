-- ===== src/Testkit/Scripted/Match.antt =====
-- Which rule of processkittest/doubles.go answers an invocation.
use processkit_go.Prelude.{
  true, false, none, some, List, [], ◌∷◌, ◌++◌, Bytes, All, bytes_eq_refl, bytes_eq_sound, ◌≡◌, ◌↔◌,
  refl, ap, arith, length, length-append,
}
use processkit_go.Result.{Invocation}
use processkit_go.Testkit.Scripted.{Rule, starts_with, rule_matches, play, match_rules}

-- Every rule before it passes, a rule matches and answers, and only its cursor moves.
pub match_rules-first :
    (inv : Invocation) (before : List Rule) (ru : Rule) (after : List Rule)
    → All (λ r. rule_matches r inv ≡ false) before
    → rule_matches ru inv ≡ true
    → match_rules inv (before ++ ru ∷ after) ≡ (some (play ru).0, before ++ (play ru).1 ∷ after)
unfolding match_rules
match_rules-first inv [] ru after h m = ground arith
match_rules-first inv (r ∷ before) ru after h m =
    ground (arith, match_rules-first inv before ru after h.1 m)

-- Where no rule matches, none answers and no cursor moves.
pub match_rules-none :
    (inv : Invocation) (rules : List Rule)
    → All (λ r. rule_matches r inv ≡ false) rules
    → match_rules inv rules ≡ (none, rules)
unfolding match_rules
match_rules-none inv [] h = refl
match_rules-none inv (r ∷ rules) h = ground (arith, match_rules-none inv rules h.1)

starts_with_sound :
    (prefix full : List Bytes)
    → starts_with prefix full ≡ true
    → (rest : List Bytes) × (full ≡ prefix ++ rest)
unfolding starts_with
starts_with_sound [] full h = (full, refl)
starts_with_sound (p ∷ ps) [] h = cc
starts_with_sound (p ∷ ps) (a ∷ full) h =
    let (rest, e) = starts_with_sound ps full (ground arith) in
    (rest, ground (arith, bytes_eq_sound a p))

starts_with-append : (prefix rest : List Bytes) → starts_with prefix (prefix ++ rest) ≡ true
unfolding starts_with
starts_with-append [] rest = refl
starts_with-append (p ∷ ps) rest = ground (arith, bytes_eq_refl p, starts_with-append ps rest)

-- A prefix rule matches exactly the invocations whose program and arguments begin with the prefix.
pub rule_matches_iff :
    (ru : Rule) (inv : Invocation)
    → ru.predicate ≡ none
    → (rule_matches ru inv ≡ true)
      ↔ ((rest : List Bytes) × (inv.program ∷ inv.args ≡ ru.prefix ++ rest))
unfolding rule_matches
rule_matches_iff ru inv p = (
  (λ h. starts_with_sound ru.prefix (inv.program ∷ inv.args) (ground arith)),
  (λ (rest, e).
      ground (arith, starts_with-append ru.prefix rest, length-append ru.prefix rest, ap length e)),
)
