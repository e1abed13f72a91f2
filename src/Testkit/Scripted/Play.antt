-- ===== src/Testkit/Scripted/Play.antt =====
-- The order in which a rule of processkittest/doubles.go gives its replies.
use processkit_go.Prelude.{ℕ, zero, suc, ◌+◌, ◌-◌, ◌≤◌, ◌≡◌, refl, ap, ◌∙◌, arith, length, get_or}
use Prim.Native.Nat.{min}
use processkit_go.Testkit.Scripted.{Rule, replies_of, play}

-- The rule after `k` matches.
abbrev pub played : ℕ → Rule → Rule
played zero ru = ru
played (suc k) ru = played k (play ru).1

play_lem :
    (ru : Rule)
    → (replies_of (play ru).1 ≡ replies_of ru)
      × ((play ru).1.first ≡ ru.first)
      × (ru.cursor ≤ length (replies_of ru)
          → (play ru).1.cursor ≡ min (suc ru.cursor) (length (replies_of ru)))
unfolding play
play_lem ru = ground arith

played_lem :
    (k : ℕ) (ru : Rule)
    → ru.cursor ≤ length (replies_of ru)
    → (replies_of (played k ru) ≡ replies_of ru)
      × ((played k ru).first ≡ ru.first)
      × ((played k ru).cursor ≡ min (ru.cursor + k) (length (replies_of ru)))
played_lem zero ru h = (refl, refl, omega arith)
played_lem (suc k) ru h =
    let (same, first, moved) = play_lem ru in
    let n = ap length same in
    let (same', first', moved') = played_lem k (play ru).1 (omega (arith, moved h)) in
    (same' ∙ same, first' ∙ first, omega (arith, moved h))

play-reply :
    (ru : Rule)
    → ru.cursor ≤ length (replies_of ru)
    → (play ru).0 ≡ get_or (replies_of ru) (min ru.cursor (length (replies_of ru) - 1)) ru.first
unfolding play
play-reply ru h = ground arith

-- The matches of a rule get its replies in order, and the last reply from then on: match number `k`,
-- counted from 0, gets reply `k` or the last.
play_in_order :
    (ru : Rule) (k : ℕ)
    → ru.cursor ≡ 0
    → (play (played k ru)).0 ≡ get_or (replies_of ru) (min k (length (replies_of ru) - 1)) ru.first
play_in_order ru k start =
    let (same, first, moved) = played_lem k ru (omega arith) in
    let n = ap length same in
    let index : min (played k ru).cursor (length (replies_of (played k ru)) - 1)
        ≡ min k (length (replies_of ru) - 1) =
      omega arith in
    play-reply (played k ru) (omega arith) ∙ (λ i. get_or (same i) (index i) (first i))
