-- ===== src/Tests/Pipelines.antt =====
-- A chain whose second stage cannot be contained (pipeline.go).
use processkit_go.Prelude.{pos, false, none, some, [], ◌∷◌, codes, ◌≡◌, refl}
use processkit_go.Outcome.{mechanism_process_group, unix}
use processkit_go.Errors.{other, ok}
use processkit_go.Command.{command}
use processkit_go.Result.{Result}
use processkit_go.Runner.{cancelled_by}
use processkit_go.Pipeline.{pipefail}
use processkit_go.Pipeline.Returns.{Completed, output-Completed}
use processkit_go.Pipeline.Output.{
  stage_outcome, run_chain, with_job, finish_chain, start_stages, launch_stage, after_launch,
  conclude_chain, Pipeline, StageScript, ChainScript, output,
}

abbrev fine_stage : StageScript
fine_stage = record {
  pipe_err = none;
  configure_err = none;
  start_err = none;
  assign_err = none;
  process_state = none;
  deadline_exceeded = false;
  stderr = [];
}

abbrev loose_stage : StageScript
loose_stage = record fine_stage { assign_err = some (other (codes "no such process")) }

abbrev chain : Pipeline
chain = record {
  stages =
      (command (codes "yes") [], fine_stage)
      ∷ (command (codes "head") [], loose_stage)
      ∷ (command (codes "wc") [], fine_stage)
      ∷ [];
  timeout = pos 0;
  stdin = none;
}

abbrev chain_script : ChainScript
chain_script = record {
  ctx_before = none;
  ctx_after_failure = none;
  ctx_after_wait = none;
  job_err = none;
  deadline_exceeded = false;
  last_stdout = [];
  duration = pos 3;
  mechanism = mechanism_process_group;
  path_dirs = [];
}

-- The same chain with every stage contained.
abbrev sound_chain : Pipeline
sound_chain = record chain {
  stages = (command (codes "yes") [], fine_stage) ∷ (command (codes "head") [], fine_stage) ∷ [];
}

abbrev sound_result : Result
sound_result =
    pipefail (stage_outcome unix (command (codes "yes") [], fine_stage))
      (stage_outcome unix (command (codes "head") [], fine_stage) ∷ []) [] mechanism_process_group
      (pos 3)

sound_returns : (output unix sound_chain chain_script).0 ≡ ok sound_result
unfolding output run_chain with_job finish_chain start_stages launch_stage after_launch
    conclude_chain cancelled_by
sound_returns = refl

output-Completed_example : Completed unix sound_chain chain_script sound_result
output-Completed_example = output-Completed unix sound_chain chain_script sound_result sound_returns
