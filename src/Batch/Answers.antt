-- ===== src/Batch/Answers.antt =====
-- batch.go: the answers of the waits and of a batch.
use processkit_go.Prelude.{arith, ℤ, ℕ, Option, none, some, List, [], ◌∷◌, ◌≡◌, refl, subst}
use processkit_go.Errors.{Fallible}
use processkit_go.Result.{Result}
use processkit_go.Batch.{
  Worker, waiting, running, finished, outputs, result_first, launched, Acquire, acquire_here,
  acquire_later, Finish, finish_here, finish_later, acquires, finishes, OutputAll, begins, steps,
}

module _ {C W : Type 0} (output : C → W → Fallible Result × W) where
  -- A result for each command, in the order of the commands: what its run answered, in some world.
  pub data Answers : List C → List (Fallible Result) → Type 0 where
    no_answer : Answers [] []
    answer :
        (c : C) (cmds : List C) (rs : List (Fallible Result)) (v : W)
        → Answers cmds rs
        → Answers (c ∷ cmds) ((output c v).0 ∷ rs)

  -- The workers of these commands, with no result but of the worker's own command.
  data Own : List C → List (Worker C) → Type 0 where
    no_worker : Own [] []
    waits :
        (c : C) (cmds : List C) (ws : List (Worker C))
        → Own cmds ws
        → Own (c ∷ cmds) (waiting c ∷ ws)
    runs :
        (c : C) (cmds : List C) (ws : List (Worker C))
        → Own cmds ws
        → Own (c ∷ cmds) (running c ∷ ws)
    done :
        (c : C) (cmds : List C) (ws : List (Worker C)) (v : W)
        → Own cmds ws
        → Own (c ∷ cmds) (finished c (output c v).0 ∷ ws)

  launched-Own : (cmds : List C) → Own cmds (launched cmds)
  unfolding launched
  launched-Own [] = no_worker
  launched-Own (c ∷ cmds) = waits c cmds _ (launched-Own cmds)

  Acquire-Own :
      (cmds : List C) (ws ws' : List (Worker C)) → Acquire ws ws' → Own cmds ws → Own cmds ws'
  Acquire-Own _ _ _ (acquire_here c ws) (waits _ cmds _ own) = runs c cmds ws own
  Acquire-Own _ _ _ (acquire_later _ ws ws' s) (waits c cmds _ own) =
      waits c cmds ws' (Acquire-Own cmds ws ws' s own)
  Acquire-Own _ _ _ (acquire_later _ ws ws' s) (runs c cmds _ own) =
      runs c cmds ws' (Acquire-Own cmds ws ws' s own)
  Acquire-Own _ _ _ (acquire_later _ ws ws' s) (done c cmds _ v own) =
      done c cmds ws' v (Acquire-Own cmds ws ws' s own)

  Finish-Own :
      (cmds : List C) (ws ws' : List (Worker C)) (w w' : W)
      → Finish output ws w ws' w'
      → Own cmds ws
      → Own cmds ws'
  Finish-Own _ _ _ _ _ (finish_here c ws w) (runs _ cmds _ own) = done c cmds ws w own
  Finish-Own _ _ _ _ _ (finish_later _ ws ws' w w' s) (waits c cmds _ own) =
      waits c cmds ws' (Finish-Own cmds ws ws' w w' s own)
  Finish-Own _ _ _ _ _ (finish_later _ ws ws' w w' s) (runs c cmds _ own) =
      runs c cmds ws' (Finish-Own cmds ws ws' w w' s own)
  Finish-Own _ _ _ _ _ (finish_later _ ws ws' w w' s) (done c cmds _ v own) =
      done c cmds ws' v (Finish-Own cmds ws ws' w w' s own)

  OutputAll-Own :
      (concurrency : ℤ) (cmds : List C) (w w' : W) (n : ℕ) (ws : List (Worker C))
      → OutputAll output concurrency cmds w n ws w'
      → Own cmds ws
  OutputAll-Own concurrency cmds w _ _ _ begins = launched-Own cmds
  OutputAll-Own concurrency cmds w _ _ _ (steps n ws ws' v v' before (acquires _ _ _ free s)) =
      Acquire-Own cmds ws ws' s (OutputAll-Own concurrency cmds w v n ws before)
  OutputAll-Own concurrency cmds w _ _ _ (steps n ws ws' v v' before (finishes _ _ _ _ s)) =
      Finish-Own cmds ws ws' v v' s (OutputAll-Own concurrency cmds w v n ws before)

  Own-Answers :
      (cmds : List C) (ws : List (Worker C)) (rs : List (Fallible Result))
      → Own cmds ws
      → outputs ws ≡ some rs
      → Answers cmds rs
  unfolding outputs
  Own-Answers _ _ rs no_worker h = subst (Answers []) (ground arith) no_answer
  Own-Answers _ _ rs (waits c cmds ws own) h = absurd (ground arith)
  Own-Answers _ _ rs (runs c cmds ws own) h = absurd (ground arith)
  Own-Answers _ _ rs (done c cmds ws v own) h =
      first (outputs ws) (λ later. Own-Answers cmds ws later own) h
    where
      first :
          (later : Option (List (Fallible Result)))
          → ((qs : List (Fallible Result)) → later ≡ some qs → Answers cmds qs)
          → result_first (output c v).0 later ≡ some rs
          → Answers (c ∷ cmds) rs
      first none known h = absurd (ground arith)
      first (some qs) known h =
          subst (Answers (c ∷ cmds)) (ground arith) (answer c cmds qs v (known qs refl))

  -- A batch that has every result has one for each command, at the command's place, which is what that
  -- command's run answered, whatever the order in which the runs went.
  pub OutputAll-Answers :
      (concurrency : ℤ) (cmds : List C) (w w' : W) (n : ℕ) (ws : List (Worker C))
      (rs : List (Fallible Result))
      → OutputAll output concurrency cmds w n ws w'
      → outputs ws ≡ some rs
      → Answers cmds rs
  OutputAll-Answers concurrency cmds w w' n ws rs run h =
      Own-Answers cmds ws rs (OutputAll-Own concurrency cmds w w' n ws run) h
