-- ===== src/TestExecution/Tally.antt =====
-- The counters of the step ExecuteTests against the number of test cases.
use plus_api.Common.{ℕ, ◌+◌, String, ◌≡◌, ◌≢◌, refl, Option, some, List, [], ◌∷◌, arith}
use plus_api.Common.Dict.{lookup}
use plus_api.Common.Lists.{length}
use plus_api.Common.Result.{
  Result, ok, err, Error, Async, settle, throw, Returns, Returns-bind, Returns-catch, Returns-mono,
  Returns-ok, pure, ◌>>=◌,
}
use plus_api.Saga.Actions.{get_result, data_of, call}
use plus_api.TestRun.{TestRun}
use plus_api.TestResult.{TestResultStatus}
use plus_api.TestService.{TestType, TestCase, TestClient, create_result, update_result}
use plus_api.TestExecution.{
  ExecuteTestRunData, ExecutionResult, Runners, Counts, no_counts, StepOutput, loaded, executed,
  State, count, cases_of, runner_of, record_result, record_error, try_case, run_case, run_cases,
  execute_tests,
}

abbrev pub total : Counts → ℕ
total c = c.passed + c.failed + c.skipped

-- a status that some counter counts
abbrev pub IsFinal : TestResultStatus → Type 0
IsFinal s = (s ≢ TestResultStatus.pending) × (s ≢ TestResultStatus.running)

total-count : (s : TestResultStatus) (c : Counts) → IsFinal s → total (count s c) ≡ total c + 1
unfolding count
total-count TestResultStatus.pending c h = absurd (h.0 refl)
total-count TestResultStatus.running c h = absurd (h.1 refl)
total-count TestResultStatus.passed c h = omega arith
total-count TestResultStatus.failed c h = omega arith
total-count TestResultStatus.error c h = omega arith
total-count TestResultStatus.skipped c h = omega arith

executed_total :
    (C S : Type 0) {X : Type 0} (n : ℕ) (x : Result Counts) (s : X)
    → Returns (λ k. total k ≡ total no_counts + n) x
    → Returns
        (λ (v : StepOutput C S). (k : Counts) × (v ≡ executed k) × (total k ≡ n))
        (settle x (λ k. pure (executed k)) throw s).0
executed_total C S n (ok k) s sum = (k, refl, omega (arith, sum))
executed_total C S n (err e) s sum = tt

module _ {C O S W : Type 0} (client : TestClient C S W) (runners : Runners O S W) where
  -- A runner that returns gives a final status.
  pub record IsDecided : Type 0 where
    pub web :
        (c : TestCase S) (env : Option String) (o : Option O) (w : W)
        → Returns (λ (x : ExecutionResult). IsFinal x.status) (runners.web c env o w).0
    pub api :
        (c : TestCase S) (env : Option String) (o : Option O) (w : W)
        → Returns (λ (x : ExecutionResult). IsFinal x.status) (runners.api c env o w).0

  module _ (decided : IsDecided) (d : ExecuteTestRunData O) where
    runner_decided :
        (t : TestType) (c : TestCase S) (env : Option String) (o : Option O) (w : W)
        → Returns
            (λ (x : ExecutionResult). IsFinal x.status)
            (runner_of client runners t c env o w).0
    runner_decided TestType.web c env o w = decided.web c env o w
    runner_decided TestType.api c env o w = decided.api c env o w

    record_result_total :
        (id : String) (k : Counts) (x : ExecutionResult) (w : W)
        → IsFinal x.status
        → Returns (λ k'. total k' ≡ total k + 1) (record_result client runners id k x w).0
    unfolding record_result
    record_result_total id k x w final =
        Returns-bind (λ k'. total k' ≡ total k + 1) (update_result client id _) _ w
          (λ u done. total-count x.status k final)

    record_error_total :
        (id : String) (k : Counts) (e : Error) (w : W)
        → Returns (λ k'. total k' ≡ total k + 1) (record_error client runners id k e w).0
    unfolding record_error
    record_error_total id k e w =
        Returns-bind (λ k'. total k' ≡ total k + 1) (update_result client id _) _ w
          (λ u done. omega arith)

    try_case_total :
        (c : TestCase S) (id : String) (k : Counts) (w : W)
        → Returns (λ k'. total k' ≡ total k + 1) (try_case client runners d c id k w).0
    unfolding try_case
    try_case_total c id k w =
        Returns-catch (λ k'. total k' ≡ total k + 1)
          (runner_of client runners c.type c d.environment d.config
            >>= record_result client runners id k)
          (record_error client runners id k) w
          (Returns-bind (λ k'. total k' ≡ total k + 1)
            (runner_of client runners c.type c d.environment d.config)
            (record_result client runners id k) w
            (λ x is.
              record_result_total id k x _
                (rw is at (runner_decided c.type c d.environment d.config w))))
          (record_error_total id k)

    run_case_total :
        (c : TestCase S) (k : Counts) (w : W)
        → Returns (λ k'. total k' ≡ total k + 1) (run_case client runners d c k w).0
    unfolding run_case
    run_case_total c k w =
        Returns-bind (λ k'. total k' ≡ total k + 1) (create_result client d.test_run_id c.id _)
          (λ result. try_case client runners d c result.id k) w
          (λ result done. try_case_total c result.id k _)

    run_cases_total :
        (cs : List (TestCase S)) (k : Counts) (w : W)
        → Returns (λ k'. total k' ≡ total k + length cs) (run_cases client runners d cs k w).0
    unfolding run_cases
    run_cases_total [] k w = omega arith
    run_cases_total (c ∷ cs) k w =
        Returns-bind (λ k'. total k' ≡ total k + length (c ∷ cs)) (run_case client runners d c k)
          (run_cases client runners d cs) w
          (λ k₁ done.
            let one = rw done at (run_case_total c k w) in
            Returns-mono (λ k'. total k' ≡ total k₁ + length cs)
              (λ k'. total k' ≡ total k + length (c ∷ cs)) _ (λ k' sum. omega (arith, sum, one))
              (run_cases_total cs k₁ _))

    -- If each runner, where it returns, gives a status other than PENDING and RUNNING, then the step
    -- ExecuteTests, where it returns after LoadData, returns counters that sum up to the number of
    -- the loaded test cases, whether their runners returned or threw.
    pub execute_tests_total :
        (r : State C O S W) (row : TestRun C) (cs : List (TestCase S))
        → r.context.content ≡ d
        → lookup "LoadData" r.context.step_results ≡ some (loaded row cs)
        → Returns
            (λ v. (k : Counts) × (v ≡ executed k) × (total k ≡ length cs))
            (execute_tests client runners r).0
    unfolding execute_tests get_result cases_of data_of call
    execute_tests_total r row cs same found =
        rw found
          (simp same (executed_total C S (length cs) _ _ (run_cases_total cs no_counts r.world)))

module _ {C O S W : Type 0} (client : TestClient C S W) (runners : Runners O S W) where
  abbrev IsExecuted : StepOutput C S → Type 0
  IsExecuted v = (k : Counts) × (v ≡ executed k)

  abbrev count_all :
      ExecuteTestRunData O → List (TestCase S) → Async (State C O S W) (StepOutput C S)
  count_all d cs = call (run_cases client runners d cs no_counts) >>= λ k. pure (executed k)

  -- What ExecuteTests returns is counters.
  pub execute_tests_executed :
      (r : State C O S W) (v : StepOutput C S)
      → (execute_tests client runners r).0 ≡ ok v
      → (k : Counts) × (v ≡ executed k)
  unfolding execute_tests
  execute_tests_executed r v done = Returns-ok IsExecuted _ v done (
      Returns-bind IsExecuted (get_result "LoadData")
        (λ result. cases_of result >>= λ cs. data_of >>= λ d. count_all d cs) r
        (λ result _.
          Returns-bind IsExecuted (cases_of result) (λ cs. data_of >>= λ d. count_all d cs) _
            (λ cs _.
              Returns-bind IsExecuted data_of (λ d. count_all d cs) _
                (λ d _.
                  Returns-bind IsExecuted (call (run_cases client runners d cs no_counts))
                    (λ k. pure (executed k)) _ (λ k _. (k, refl))))))
