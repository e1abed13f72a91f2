-- ===== src/Tests/Branches.antt =====
-- Commands that branch off one another, over shared arrays (command.go), at a concrete program.
use processkit_go.Prelude.{ℕ, none, some, List, [], ◌∷◌, codes, ◌≡◌, arith}
use processkit_go.Command.Slices.{Heap}
use processkit_go.Command.Builders.{CmdStruct, Change, args_added, env_added, build_all}
use processkit_go.Command.Builders.Branches.{change_all, described_all, build_all-copy_on_write}
use processkit_go.Tests.Retries.{retried}

-- `git status`, in an array with room for two arguments more.
abbrev heap : Heap
heap = record { cells = λ b. codes "status" ∷ [] ∷ [] ∷ []; next = 1 }

abbrev base : CmdStruct
base = record { fields = retried; args = some (record { base = 0; len = 1 }); env = none }

-- Two branches that add an argument each, and one that adds to the environment.
abbrev steps : List (ℕ × Change)
steps =
    (0, args_added (codes "-s" ∷ []))
    ∷ (0, args_added (codes "-v" ∷ []))
    ∷ (1, env_added (codes "HOME=/" ∷ []) (codes "A=1" ∷ []))
    ∷ []

abbrev roomy : ℕ → ℕ
roomy n = 2

build_all-copy_on_write_example :
    described_all
      (build_all roomy steps (base ∷ []) heap).0
      (build_all roomy steps (base ∷ []) heap).1
    ≡ change_all steps (described_all (base ∷ []) heap)
build_all-copy_on_write_example =
    build_all-copy_on_write roomy steps (base ∷ []) heap (((omega arith, omega arith), tt), tt)
