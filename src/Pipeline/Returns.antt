-- ===== src/Pipeline/Returns.antt =====
-- When `Pipeline.Output` returns a result (pipeline.go).
use processkit_go.Prelude.{
  ℤ, ℕ, suc, ltb, Bool, true, false, Option, none, some, List, [], ◌∷◌, map, Bytes, ◌≡◌, refl, sym,
  ap, subst, ◌∙◌, arith, if◌then◌else◌, length, ◌≤◌,
}
use processkit_go.Outcome.{Platform, Mechanism, timed_out}
use processkit_go.Errors.{ContextError, Error, start_error, Fallible, ok, err}
use processkit_go.Result.{Result}
use processkit_go.Command.{Cmd}
use processkit_go.Runner.{cancelled_by, start_err_of}
use processkit_go.Pipeline.{StageOutcome, pipefail}
use processkit_go.Pipeline.Fold.{Attribution, pipefail-Attribution}
use processkit_go.Pipeline.Output.{
  Pipeline, Stage, StageScript, pipe_err_of, Launch, not_started, uncontained, launched,
  launch_stage, after_launch, stage_outcome, ChainScript, Launched, start_stages, finish_chain,
  with_job, run_chain, output, name_of, timed_out_result, ChainAction, folded, fold_result,
  chain_deadline, too_few, conclude_chain,
}

-- Every stage got its pipe (the last one needs none), was configured and started, and was contained.
abbrev pub Contained : List Stage → Type 0
Contained [] = Unit
Contained ((c, s) ∷ rest) =
    (pipe_err_of rest s ≡ none)
    × (s.configure_err ≡ none)
    × (s.start_err ≡ none)
    × (s.assign_err ≡ none)
    × Contained rest

-- The result of a chain: after its own deadline a timeout with no output, else one whose outcome is
-- attributed as pipefail does.
pub data Answer (platform : Platform) (p : Pipeline) (s : ChainScript) (r : Result) : Type 0 where
  by_deadline :
      chain_deadline p s ≡ true
      → r.outcome ≡ timed_out
      → r.program ≡ name_of p.stages
      → r.stdout ≡ []
      → Answer platform p s r
  by_fold :
      (first : Stage) (rest : List Stage)
      → chain_deadline p s ≡ false
      → p.stages ≡ first ∷ rest
      → r.stdout ≡ s.last_stdout
      → Attribution (stage_outcome platform first) (map (stage_outcome platform) rest) r
      → Answer platform p s r

-- What a result says of the run.
pub record Completed (platform : Platform) (p : Pipeline) (s : ChainScript) (r : Result)
    : Type 0 where
  pub two_stages : 2 ≤ length p.stages
  pub never_cancelled : s.ctx_after_wait ≡ none
  pub all_contained : Contained p.stages
  pub answer : Answer platform p s r

ok-injective : {A : Type 0} {a b : A} → ok a ≡ ok b → a ≡ b
ok-injective e = ground arith

err-not_ok : {A : Type 0} {a : A} {e : Error} → ¬ (err e ≡ ok a)
err-not_ok h = ground arith

some-injective : {A : Type 0} {a b : A} → some a ≡ some b → a ≡ b
some-injective e = ground arith

fold_result-some : (o : Option Result) {r : Result} → fold_result o ≡ ok r → o ≡ some r
fold_result-some none h = absurd (err-not_ok h)
fold_result-some (some a) h = ap some (ok-injective h)

module _ (path_dirs : List Bytes) where
  launch_stage-launched :
      (rest : List Stage) (c : Cmd) (s : StageScript)
      → launch_stage path_dirs rest c s ≡ launched
      → (pipe_err_of rest s ≡ none)
        × (s.configure_err ≡ none)
        × (s.start_err ≡ none)
        × (s.assign_err ≡ none)
  unfolding launch_stage
  launch_stage-launched rest c s h =
      go (pipe_err_of rest s) s.configure_err s.start_err s.assign_err h
    where
      go :
          (pipe_err configure_err start_err assign_err : Option Error)
          → (elim pipe_err [
            | some e ↦ not_started (start_error c.program e)
            | none ↦ elim configure_err [
              | some e ↦ not_started (start_error c.program e)
              | none ↦ elim start_err [
                | some e ↦ not_started (start_err_of c.program path_dirs e)
                | none ↦ elim assign_err [
                  | some e ↦ uncontained (start_error c.program e)
                  | none ↦ launched
                ]
              ]
            ]
          ])
            ≡ launched
          → (pipe_err ≡ none) × (configure_err ≡ none) × (start_err ≡ none) × (assign_err ≡ none)
      go (some e) b c d h = absurd (ground arith)
      go none (some e) c d h = absurd (ground arith)
      go none none (some e) d h = absurd (ground arith)
      go none none none (some e) h = absurd (ground arith)
      go none none none none h = (refl, refl, refl, refl)

  after_launch-none :
      (i : ℕ) (l : Launch) (later : Launched)
      → (after_launch i l later).0 ≡ none
      → (l ≡ launched) × (later.0 ≡ none)
  unfolding after_launch
  after_launch-none i (not_started e) later h = absurd (ground arith)
  after_launch-none i (uncontained e) later h = absurd (ground arith)
  after_launch-none i launched later h = (refl, h)

  start_stages-Contained :
      (i : ℕ) (stages : List Stage) → (start_stages path_dirs i stages).0 ≡ none → Contained stages
  unfolding start_stages
  start_stages-Contained i [] h = tt
  start_stages-Contained i ((c, s) ∷ rest) h =
      let (here, later) = after_launch-none i _ (start_stages path_dirs (suc i) rest) h in
      let (piped, configured, started, assigned) = launch_stage-launched rest c s here in
      (piped, configured, started, assigned, start_stages-Contained (suc i) rest later)

cancelled_by-none :
    (c : Option ContextError) (program : Bytes) → cancelled_by c program ≡ none → c ≡ none
unfolding cancelled_by
cancelled_by-none none program h = refl
cancelled_by-none (some c) program h = absurd (ground arith)

pipefail-stdout :
    (first : StageOutcome) (rest : List StageOutcome) (out : Bytes) (m : Mechanism) (d : ℤ)
    → (pipefail first rest out m d).stdout ≡ out
unfolding pipefail
pipefail-stdout first rest out m d = ground arith

module _ (platform : Platform) (p : Pipeline) (s : ChainScript) (r : Result) where
  folded-Answer :
      (stages : List Stage)
      → p.stages ≡ stages
      → chain_deadline p s ≡ false
      → folded platform stages s ≡ some r
      → Answer platform p s r
  folded-Answer [] at e h = absurd (ground arith)
  folded-Answer (first ∷ rest) at e h =
      let one = stage_outcome platform first in
      let others = map (stage_outcome platform) rest in
      let same = some-injective h in
      by_fold first rest e at
        (ap (λ (x : Result). x.stdout) (sym same)
          ∙ pipefail-stdout one others s.last_stdout s.mechanism s.duration)
        (subst (Attribution one others) same
          (pipefail-Attribution one others s.last_stdout s.mechanism s.duration))

  deadline_or_fold :
      (b : Bool)
      → chain_deadline p s ≡ b
      → (if b then ok (timed_out_result p s) else fold_result (folded platform p.stages s)) ≡ ok r
      → Answer platform p s r
  deadline_or_fold true e h =
      let same = sym (ok-injective h) in
      by_deadline e (ap (λ (x : Result). x.outcome) same) (ap (λ (x : Result). x.program) same)
        (ap (λ (x : Result). x.stdout) same)
  deadline_or_fold false e h = folded-Answer p.stages refl e (fold_result-some _ h)

  conclude_chain-Answer :
      (c : Option Error) → conclude_chain platform p s c ≡ ok r → (c ≡ none) × Answer platform p s r
  unfolding conclude_chain
  conclude_chain-Answer (some e) h = absurd (err-not_ok h)
  conclude_chain-Answer none h = (refl, deadline_or_fold (chain_deadline p s) refl h)

  finish_chain-Answer :
      (l : Launched)
      → (finish_chain platform p s l).0 ≡ ok r
      → (l.0 ≡ none) × ((s.ctx_after_wait ≡ none) × Answer platform p s r)
  unfolding finish_chain
  finish_chain-Answer (some e, actions, n) h = absurd (err-not_ok h)
  finish_chain-Answer (none, actions, n) h =
      let (uncancelled, answer) = conclude_chain-Answer _ h in
      (refl, (cancelled_by-none s.ctx_after_wait _ uncancelled, answer))

  with_job-Completed :
      (job_err : Option Error)
      → 2 ≤ length p.stages
      → (with_job platform p s job_err).0 ≡ ok r
      → Completed platform p s r
  unfolding with_job
  with_job-Completed (some e) two h = absurd (err-not_ok h)
  with_job-Completed none two h =
      let (started, (uncancelled, answer)) = finish_chain-Answer _ h in
      record {
        two_stages = two;
        never_cancelled = uncancelled;
        all_contained = start_stages-Contained s.path_dirs 0 p.stages started;
        answer = answer;
      }

  run_chain-Completed :
      (c : Option Error)
      → 2 ≤ length p.stages
      → (run_chain platform p s c).0 ≡ ok r
      → Completed platform p s r
  unfolding run_chain
  run_chain-Completed (some e) two h = absurd (err-not_ok h)
  run_chain-Completed none two h = with_job-Completed s.job_err two h

  enough-Completed :
      (b : Bool)
      → ltb (length p.stages) 2 ≡ b
      → (if◌then◌else◌ {A = Fallible Result × List ChainAction} b
          (too_few, [])
          (run_chain platform p s (cancelled_by s.ctx_before (name_of p.stages)))).0
        ≡ ok r
      → Completed platform p s r
  enough-Completed true e h = absurd (err-not_ok h)
  enough-Completed false e h = run_chain-Completed _ (ground arith) h

  -- A chain that returns a result has at least two stages; each of them got its pipe, was configured,
  -- started and contained without an error; and the caller's context had not ended when they had been
  -- waited for. If the chain's own deadline has passed, the result is a timeout of the chain's name with
  -- no output. Otherwise its output is the last stage's, and its outcome is attributed to the first
  -- failing stage that was not killed by SIGPIPE, to the first failing stage where SIGPIPE killed them
  -- all, or to the last stage where none failed.
  pub output-Completed : (output platform p s).0 ≡ ok r → Completed platform p s r
  unfolding output
  output-Completed h = enough-Completed (ltb (length p.stages) 2) refl h
