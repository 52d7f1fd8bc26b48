-- ===== src/TestExecution/Settled.antt =====
-- How the execution of a test run leaves the run.
use plus_api.Common.{
  ◌+◌, ◌≤◌, Bool, true, String, ◌≡◌, ◌≢◌, ◌⊎◌, ◌∙◌, refl, sym, ap, inl, inr, Option, none, some,
}
use mathlib.Core.Path.{subst}
use plus_api.Common.Dict.{lookup, lookup-insert}
use plus_api.Common.Result.{Result, ok, err, Error, Result-cases, pure, ◌>>=◌}
use plus_api.Saga.Types.{SagaContext, SagaResult, Services}
use plus_api.Saga.Events.Quiet.{IsQuiet}
use plus_api.Saga.Steps.{sort_steps}
use plus_api.Saga.Steps.Recovery.{
  StepRule, ForwardRule, Recovers, next, ending, Seen, Seen-IsStable,
}
use plus_api.Saga.Steps.Plain.{plain_rule, plain_forward}
use plus_api.Saga.Orchestrator.Quiet.{IsQuietStore, start_saga_quiet, start_saga_content}
use plus_api.Saga.Orchestrator.Recovery.{Reported, execute-Reported}
use plus_api.Saga.Actions.{logged, call, data_of, get_result}
use plus_api.Saga.Actions.Keeps.{Keeps, kept_rule}
use plus_api.TestRun.{TestRun, TestRunStatus, final_status}
use plus_api.TestService.{RunUpdate, TestClient, update}
use plus_api.TestExecution.{
  ExecuteTestRunData, Runners, Counts, start_update, revert_update, StepOutput, executed, started,
  completed, State, execution_config, run_status, no_undo, start_test_run, revert_test_run,
  execute_tests, complete_test_run, mark_error, final_update, execution_step, execution_steps,
  execute_test_run,
}
use plus_api.TestExecution.Tally.{execute_tests_executed}
use plus_api.TestExecution.View.{
  RunView, with_update, After, IsStored, see, load_data-Keeps, no_undo-Keeps, execute_tests-Keeps,
}

-- The saga's own status of the counters is the one that the entity's `complete` gives.
run_status-eq-final_status : (k : Counts) → run_status k ≡ final_status k.passed k.failed
unfolding run_status final_status
run_status-eq-final_status k = refl

-- The run as it stands after the last step.
abbrev pub completed_view : Counts → RunView
completed_view k = record {
  status = final_status k.passed k.failed;
  total_tests = k.passed + k.failed + k.skipped;
  passed_tests = k.passed;
  failed_tests = k.failed;
  skipped_tests = k.skipped;
}

abbrev running : RunView → RunView
running v = record v { status = TestRunStatus.running }

-- The run is in this state, unless setting it back to PENDING has been refused.
abbrev Stands : RunView → RunView × Bool → Type 0
Stands v seen = (seen.1 ≡ true) ⊎ (seen.0 ≡ v)

Stands-After :
    (f : RunView → RunView) (v : RunView) (before after : RunView × Bool)
    → After f before after
    → Stands v before
    → Stands (f v) after
Stands-After f v before after (stays, moved) (inl was) = inl (stays was)
Stands-After f v before after (stays, moved) (inr seen) = inr (moved ∙ ap f seen)

Stands-same :
    (v : RunView) (before after : RunView × Bool)
    → after ≡ before
    → Stands v before
    → Stands v after
Stands-same v before after same = subst (Stands v) (sym same)

module _ {C O S W : Type 0} (client : TestClient C S W) (runners : Runners O S W)
    (view : W → RunView) (refused : W → Bool) where
  abbrev Seeing : W → RunView × Bool
  Seeing = see view refused

  -- How an action changes the run: as `f` says if it returns, and not at all if it throws.
  abbrev Moves :
      (RunView → RunView) → State C O S W → Result (StepOutput C S) × State C O S W → Type 0
  Moves f r (result, r') =
      (r'.context ≡ r.context)
      × ((v : StepOutput C S) → result ≡ ok v → After f (Seeing r.world) (Seeing r'.world))
      × ((e : Error) → result ≡ err e → After (λ v. v) (Seeing r.world) (Seeing r'.world))

  -- A call of `update` in a step, and what follows it.
  update_call :
      (id : String) (u : W → RunUpdate) (k : TestRun C → StepOutput C S) (r : State C O S W)
      → IsStored client runners view refused id
      → Moves
          (with_update (u r.world))
          r
          ((call (λ w. update client id (u w) w) >>= λ x. pure (k x)) r)
  unfolding call update
  update_call id u k r stored = elim (Result-cases (client.update_run id (u r.world) r.world).0) [
    | inl (x, is) ↦
        let h = rw is at (stored.updates (u r.world) r.world) in
        rw is (refl, (λ v done. h), (λ e failed. cc))
    | inr (e, is) ↦
        let h = rw is at (stored.updates (u r.world) r.world) in
        rw is (refl, (λ v done. cc), (λ e failed. h))
  ]

  module _ (svc : Services (ExecuteTestRunData O) (StepOutput C S) W) (quiet : IsQuiet Seeing svc)
      (uuid : String) (d : ExecuteTestRunData O)
      (stored : IsStored client runners view refused d.test_run_id) (before : RunView)
      (waiting : before.status ≡ TestRunStatus.pending)
      (in_time : (name : String) (w : W) → runners.elapsed name w ≤ 300000) where
    abbrev Ctx : Type 0
    Ctx = SagaContext (ExecuteTestRunData O) (StepOutput C S)

    abbrev At : RunView → Ctx → RunView × Bool → Type 0
    At v c seen = (c.content ≡ d) × Stands v seen

    abbrev Tested : Ctx → RunView × Bool → Type 0
    Tested c seen =
        (c.content ≡ d)
        × Stands (running before) seen
        × ((k : Counts) × (lookup "ExecuteTests" c.step_results ≡ some (executed k)))

    abbrev Done : Ctx → RunView × Bool → Type 0
    Done c seen =
        (k : Counts) × (lookup "ExecuteTests" c.step_results ≡ some (executed k))
        × Stands (completed_view k) seen

    start_lem :
        (r : State C O S W)
        → r.context.content ≡ d
        → Moves running r (start_test_run client runners r)
    unfolding start_test_run data_of
    start_lem r same =
        simp same (
          update_call d.test_run_id (λ w. start_update (runners.today w)) (λ x. started x) r stored)

    back_to : with_update revert_update (running before) ≡ before
    back_to = ap (λ st. record before { status = st }) (sym waiting)

    reverted :
        (v : Option (StepOutput C S)) (r : State C O S W)
        → Seen Seeing (At (running before)) r
        → Seen Seeing (At before) (revert_test_run client runners v r).1
    unfolding revert_test_run data_of logged call update
    reverted v r (same, seen) =
        let back = revert_update in
        elim (Result-cases (client.update_run d.test_run_id back r.world).0) [
          | inl (row, is) ↦
              let after = rw is at (stored.updates back r.world) in
              let seen_now = Seeing (client.update_run d.test_run_id back r.world).1 in
              let stands = Stands-After (with_update back) (running before) _ seen_now after seen in
              simp (same, is) (refl, subst (λ v. Stands v seen_now) back_to stands)
          | inr (e, is) ↦ elim (stored.reverts r.world) [
            | inl refusal ↦ simp (same, is) (refl, inl refusal)
            | inr (row, returned) ↦ cc
          ]
        ]

    start_rule :
        StepRule svc
          (execution_config uuid d)
          (Seen Seeing (At before))
          (execution_step client runners "StartTestRun" 2
            (start_test_run client runners)
            (revert_test_run client runners))
          (Seen Seeing (At (running before)))
    start_rule = plain_rule svc (execution_config uuid d) _ _ _ _ _ _ _ (record {
      stable = Seen-IsStable Seeing svc quiet (execution_config uuid d) (At before);
      settled = Seen-IsStable Seeing svc quiet (execution_config uuid d) (At (running before));
      returns = λ r v (same, seen) done.
          let (context, returned, thrown) = start_lem r same in
          (
            ap (λ (c : Ctx). c.content) context ∙ same,
            Stands-After running before _ _ (returned v done) seen,
          );
      throws = λ r e (same, seen) done.
          let (context, returned, thrown) = start_lem r same in
          (
            ap (λ (c : Ctx). c.content) context ∙ same,
            Stands-After (λ v. v) before _ _ (thrown e done) seen,
          );
      in_time = λ r h. in_time "StartTestRun" r.world;
      undone = λ r h. reverted _ r h;
    })

    tests_rule :
        StepRule svc
          (execution_config uuid d)
          (Seen Seeing (At (running before)))
          (execution_step client runners "ExecuteTests" 3
            (execute_tests client runners)
            (no_undo client runners))
          (Seen Seeing Tested)
    tests_rule = plain_rule svc (execution_config uuid d) _ _ _ _ _ _ _ (record {
      stable = Seen-IsStable Seeing svc quiet (execution_config uuid d) (At (running before));
      settled = Seen-IsStable Seeing svc quiet (execution_config uuid d) Tested;
      returns = λ r v (same, seen) done.
          let (context, kept) = keeps.at r in
          let (k, is) = execute_tests_executed client runners r v done in
          (
            ap (λ (c : Ctx). c.content) context ∙ same,
            Stands-same (running before) _ _ kept seen,
            (k, lookup-insert "ExecuteTests" "ExecuteTests" v _ ∙ ap some is),
          );
      throws = λ r e (same, seen) done.
          let (context, kept) = keeps.at r in
          (ap (λ (c : Ctx). c.content) context ∙ same, Stands-same (running before) _ _ kept seen);
      in_time = λ r h. in_time "ExecuteTests" r.world;
      undone = λ r (same, seen, tested).
          let (context, kept) =
            (no_undo-Keeps client runners view refused d.test_run_id stored _).at r in
          (ap (λ (c : Ctx). c.content) context ∙ same, Stands-same (running before) _ _ kept seen);
    })
      where
        keeps : Keeps Seeing (execute_tests client runners)
        keeps = execute_tests-Keeps client runners view refused d.test_run_id stored

    complete_lem :
        (r : State C O S W) (k : Counts)
        → r.context.content ≡ d
        → lookup "ExecuteTests" r.context.step_results ≡ some (executed k)
        → Moves (λ v. completed_view k) r (complete_test_run client runners r)
    unfolding complete_test_run data_of get_result final_status run_status
    complete_lem r k same found =
        simp (same, found)
          (update_call d.test_run_id (λ w. final_update client runners k (runners.today w))
            (λ x. completed x (run_status k)) r stored)

    complete_rule :
        ForwardRule svc
          (execution_config uuid d)
          (Seen Seeing Tested)
          (execution_step client runners "CompleteTestRun" 4
            (complete_test_run client runners)
            (mark_error client runners))
          (Seen Seeing Done)
    complete_rule = plain_forward svc (execution_config uuid d) _ _ _ _ _ _ _ (record {
      stable = Seen-IsStable Seeing svc quiet (execution_config uuid d) Tested;
      settled = Seen-IsStable Seeing svc quiet (execution_config uuid d) Done;
      returns = λ r v (same, seen, (k, found)) done.
          let (context, returned, thrown) = complete_lem r k same found in
          (
            k,
            lookup-insert "CompleteTestRun" "ExecuteTests" v _
                ∙ ap (λ (c : Ctx). lookup "ExecuteTests" c.step_results) context
                ∙ found,
            Stands-After (λ v. completed_view k) (running before) _ _ (returned v done) seen,
          );
      throws = λ r e (same, seen, (k, found)) done.
          let (context, returned, thrown) = complete_lem r k same found in
          (
            ap (λ (c : Ctx). c.content) context ∙ same,
            Stands-After (λ v. v) (running before) _ _ (thrown e done) seen,
            (k, ap (λ (c : Ctx). lookup "ExecuteTests" c.step_results) context ∙ found),
          );
      in_time = λ r h. in_time "CompleteTestRun" r.world;
    })

    chain :
        Recovers svc
          (execution_config uuid d)
          (Seen Seeing Done)
          (Seen Seeing (At before))
          (sort_steps (execution_steps client runners))
    unfolding sort_steps execution_steps
    chain =
        next
          (kept_rule Seeing svc (execution_config uuid d) quiet (At before) _ "LoadData" _ _ _
            (λ c o v h. h) (λ r. in_time "LoadData" r.world)
            (load_data-Keeps client runners view refused d.test_run_id stored)
            (no_undo-Keeps client runners view refused d.test_run_id stored))
          (next start_rule (next tests_rule (ending complete_rule)))

  -- How the execution has left the run: completed with the counters that the result reports of
  -- ExecuteTests if the result names no failed step, and as before if it names one or there is none;
  -- or setting it back has been refused.
  abbrev pub IsSettled :
      RunView
      → Result (SagaResult (ExecuteTestRunData O) (StepOutput C S))
      → RunView × Bool
      → Type 0
  IsSettled before (err e) after = after.0 ≡ before
  IsSettled before (ok result) after =
      ((result.failed_step ≡ none)
        × ((k : Counts) × (lookup "ExecuteTests" result.context.step_results ≡ some (executed k))
            × Stands (completed_view k) after))
      ⊎ ((result.failed_step ≢ none) × Stands before after)

  settled :
      (d : ExecuteTestRunData O) (w : W)
      (result : Result (SagaResult (ExecuteTestRunData O) (StepOutput C S))) (w' : W)
      → Reported Seeing
          (Seen Seeing (λ c seen. (c.content ≡ d) × Stands (view w) seen))
          (Seen Seeing (λ c seen.
            (k : Counts) × (lookup "ExecuteTests" c.step_results ≡ some (executed k))
            × Stands (completed_view k) seen))
          w
          result
          w'
      → IsSettled (view w) result (Seeing w')
  settled d w (err e) w' h = ap (λ o. o.0) h
  settled d w (ok result) w' (inl (whole, (r, (k, found, done), same, reports))) = inl (
    whole,
    (k, ap (lookup "ExecuteTests") reports ∙ found, Stands-same (completed_view k) _ _ same done),
  )
  settled d w (ok result) w' (inr (failed, (r, (content, clean), same))) =
      inr (failed, Stands-same (view w) _ _ same clean)

  -- Where no step takes longer than its limit of five minutes, over a database in which an update of
  -- the run changes the fields that it names, or throws and changes nothing, and with runners, an
  -- event publisher, a clock and a state store that leave the run alone: the execution of a PENDING
  -- test run whose result names no failed step leaves it with the counters that the result reports of
  -- the step ExecuteTests, with their sum as its total and with the status that the entity's `complete` gives to them; one whose result names a
  -- failed step has left the run with the status and the counters of before; or in either case
  -- setting the run back to PENDING has been refused, which the saga only logs. If the saga throws,
  -- the run has the status and the counters of before.
  pub execute_test_run-IsSettled :
      (svc : Services (ExecuteTestRunData O) (StepOutput C S) W)
      → IsQuiet Seeing svc
      → IsQuietStore Seeing svc.state_store
      → (uuid : String) (d : ExecuteTestRunData O) (w : W)
      → IsStored client runners view refused d.test_run_id
      → (view w).status ≡ TestRunStatus.pending
      → ((name : String) (w' : W) → runners.elapsed name w' ≤ 300000)
      → let (result, w') = execute_test_run client runners svc uuid d w in
        IsSettled (view w) result (Seeing w')
  unfolding execute_test_run
  execute_test_run-IsSettled svc quiet store uuid d w stored waiting in_time = settled d w _ _ (
      execute-Reported Seeing svc quiet store (execution_config uuid d)
        (Seen Seeing (At svc quiet uuid d stored (view w) waiting in_time (view w)))
        (Seen Seeing (Done svc quiet uuid d stored (view w) waiting in_time))
        (execution_steps client runners) d w
        (chain svc quiet uuid d stored (view w) waiting in_time)
        (
          start_saga_content svc (execution_config uuid d) d w,
          inr (
              ap (λ o. o.0)
                (start_saga_quiet Seeing svc quiet store (execution_config uuid d) d w)),
        ))
