-- ===== src/Tests/Batches.antt =====
-- A batch (batch.go) of two commands with one place. The world counts the runs.
use processkit_go.Prelude.{
  arith, pos, ℕ, suc, ◌≤◌, ◌*◌, some, List, [], ◌∷◌, length, ◌≡◌, ◌⊎◌, refl, ◌↔◌, true, false,
  codes,
}
use processkit_go.Errors.{Fallible, ok}
use processkit_go.Outcome.{mechanism_process_group}
use processkit_go.Running.{RunningProcess}
use processkit_go.Result.{Result}
use processkit_go.Batch.{
  Worker, waiting, running, finished, in_flight, outputs, slots, launched, acquire_here,
  acquire_later, finish_here, finish_later, Step, acquires, finishes, OutputAll, begins, steps,
  Received, exit, wait_all,
}
use processkit_go.Batch.Progress.{OutputAll-ends}
use processkit_go.Batch.Answers.{Answers, OutputAll-Answers}
use processkit_go.Batch.Waits.{Waited, wait_all-Waited}
use processkit_go.Tests.Samples.{result_with, exit_with}

abbrev answer_of : ℕ → Result
answer_of n = result_with (exit_with (pos n)) []

-- The command is the exit code.
abbrev exits : ℕ → ℕ → Fallible Result × ℕ
exits n runs = (ok (answer_of n), suc runs)

abbrev end : List (Worker ℕ)
end = finished 3 (ok (answer_of 3)) ∷ finished 4 (ok (answer_of 4)) ∷ []

-- The second command first.
second_first : OutputAll exits (pos 1) (3 ∷ 4 ∷ []) 0 4 end 2
unfolding launched slots in_flight
second_first =
    steps 3 (running 3 ∷ finished 4 (ok (answer_of 4)) ∷ []) _ 1 _
      (steps 2 (waiting 3 ∷ finished 4 (ok (answer_of 4)) ∷ []) _ 1 _
        (steps 1 (waiting 3 ∷ running 4 ∷ []) _ 0 _
          (steps 0 (waiting 3 ∷ waiting 4 ∷ []) _ 0 _ begins
            (acquires _ _ _ (omega arith) (acquire_later _ _ _ (acquire_here 4 []))))
          (finishes _ _ _ _ (finish_later _ _ _ _ _ (finish_here 4 [] 0))))
        (acquires _ _ _ (omega arith) (acquire_here 3 _)))
      (finishes _ _ _ _ (finish_here 3 _ 1))

OutputAll-ends_example :
    (in_flight end ≤ slots (pos 1))
    × (4 ≤ 2 * length {A = ℕ} (3 ∷ 4 ∷ []))
    × (((rs : List (Fallible Result)) × (outputs end ≡ some rs))
        ⊎ ((ws' : List (Worker ℕ)) × ((v : ℕ) × Step exits (slots (pos 1)) end 2 ws' v)))
OutputAll-ends_example = OutputAll-ends exits (pos 1) (3 ∷ 4 ∷ []) 0 2 4 end second_first

OutputAll-Answers_example : Answers exits (3 ∷ 4 ∷ []) (ok (answer_of 3) ∷ ok (answer_of 4) ∷ [])
OutputAll-Answers_example =
    OutputAll-Answers exits (pos 1) (3 ∷ 4 ∷ []) 0 2 4 end
      (ok (answer_of 3) ∷ ok (answer_of 4) ∷ []) second_first (unfold outputs in refl)

-- A process that has exited with a code.
abbrev exited_with : ℕ → RunningProcess
exited_with code = record {
  pid = pos 41;
  program = codes "worker";
  mechanism = mechanism_process_group;
  stopped = false;
  has_lines = true;
  lines_closed = true;
  finished = some (ok (exit_with (pos code)));
}

-- The handles are in the order of the answers.
waits_in_order :
    wait_all (exit ∷ exit ∷ []) (exited_with 3 ∷ exited_with 0 ∷ [])
    ≡ some (ok (exit_with (pos 3) ∷ exit_with (pos 0) ∷ []))
unfolding wait_all processkit_go.Batch.outcome_first
waits_in_order = refl

wait_all-Waited_example :
    ((choices : List Received) × (wait_all choices (exited_with 3 ∷ exited_with 0 ∷ [])
        ≡ some (ok (exit_with (pos 3) ∷ exit_with (pos 0) ∷ []))))
    ↔ Waited (exited_with 3 ∷ exited_with 0 ∷ []) (ok (exit_with (pos 3) ∷ exit_with (pos 0) ∷ []))
wait_all-Waited_example =
    wait_all-Waited (exited_with 3 ∷ exited_with 0 ∷ [])
      (ok (exit_with (pos 3) ∷ exit_with (pos 0) ∷ []))
