-- ===== src/TestExecution.antt =====
-- The saga that executes a test run: plugins/ai-agent-testing/src/application/sagas/
-- execute-test-run.saga.ts, over the services of TestService. The two runners, the dates and the stack
-- of an error are parameters. Log output is left out.
pub mod Tally
pub mod View
pub mod Settled
mod Tests
use Prim.Native.String.{◌++◌ as concat}
use plus_api.Common.{
  ℕ, ◌+◌, String, ◌&&◌, Option, none, some, List, [], ◌∷◌, ltb, ◌==◌, if◌then◌else◌,
}
use plus_api.Common.Int.{pos}
use plus_api.Common.Result.{Error, new_error, Async, pure, throw, try_catch, ◌>>=◌}
use plus_api.Saga.Types.{Run, SagaStep, SagaConfig, SagaResult, Services}
use plus_api.Saga.Steps.Plain.{plain}
use plus_api.Saga.Orchestrator.{execute}
use plus_api.Saga.Actions.{logged, call, data_of, get_result}
use plus_api.TestRun.{TestRun, TestRunStatus}
use plus_api.TestResult.{StepResult, TestResultStatus}
use plus_api.TestService.{
  TestType, TestCase, RunUpdate, ResultUpdate, TestClient, get_by_id, update, create_result,
  update_result, find_by_ids,
}

pub record ExecuteTestRunData (O : Type 0) : Type 0 where
  pub test_run_id : String
  pub test_case_ids : List String
  pub environment : Option String
  pub config : Option O

pub record ExecutionResult : Type 0 where
  pub status : TestResultStatus
  pub duration : ℕ
  pub logs : String
  pub error_message : Option String
  pub error_stack : Option String
  pub screenshot_url : Option String
  pub step_results : List StepResult

pub record Runners (O S W : Type 0) : Type 0 where
  pub web : TestCase S → Option String → Option O → Async W ExecutionResult
  pub api : TestCase S → Option String → Option O → Async W ExecutionResult
  pub today : W → ℕ  -- `new Date()`
  pub stack : Error → Option String  -- `err.stack`
  pub elapsed : String → W → ℕ  -- how long the promise of a step takes

pub record Counts : Type 0 where
  pub passed : ℕ
  pub failed : ℕ
  pub skipped : ℕ

abbrev pub no_counts : Counts
no_counts = record { passed = 0; failed = 0; skipped = 0 }

-- what the steps return
pub data StepOutput (C S : Type 0) : Type 0 where
  loaded : TestRun C → List (TestCase S) → StepOutput C S
  started : TestRun C → StepOutput C S
  executed : Counts → StepOutput C S
  completed : TestRun C → TestRunStatus → StepOutput C S

abbrev pub State : Type 0 → Type 0 → Type 0 → Type 0 → Type 0
State C O S W = Run (ExecuteTestRunData O) (StepOutput C S) W

-- `uuid` is the random part of the saga's id.
abbrev pub execution_config : {O : Type 0} → String → ExecuteTestRunData O → SagaConfig
execution_config uuid d = record {
  saga_id = concat "execute-test-run-" (concat d.test_run_id (concat "-" uuid));
  name = "ExecuteTestRunSaga";
  timeout = some 300000;
  retry_attempts = some 0;
}

abbrev pub no_change : RunUpdate
no_change = record {
  status = none;
  started_at = none;
  finished_at = none;
  total_tests = none;
  passed_tests = none;
  failed_tests = none;
  skipped_tests = none;
}

abbrev pub start_update : ℕ → RunUpdate
start_update now = record no_change { status = some TestRunStatus.running; started_at = some now }

-- `startedAt: undefined` is no change.
abbrev pub revert_update : RunUpdate
revert_update = record no_change { status = some TestRunStatus.pending }

abbrev pub error_update : ℕ → RunUpdate
error_update now = record no_change { status = some TestRunStatus.error; finished_at = some now }

-- the `switch` on the status of a result
unfoldable pub count : TestResultStatus → Counts → Counts
count TestResultStatus.passed c = record c { passed = c.passed + 1 }
count TestResultStatus.failed c = record c { failed = c.failed + 1 }
count TestResultStatus.error c = record c { failed = c.failed + 1 }
count TestResultStatus.skipped c = record c { skipped = c.skipped + 1 }
count TestResultStatus.pending c = c
count TestResultStatus.running c = c

-- the status that the last step determines
unfoldable pub run_status : Counts → TestRunStatus
run_status c =
    if c.failed == 0 && ltb 0 c.passed
    then TestRunStatus.passed
    else if c.passed == 0 && ltb 0 c.failed
    then TestRunStatus.failed
    else if ltb 0 c.passed && ltb 0 c.failed
    then TestRunStatus.partial
    else TestRunStatus.error

module _ {C S : Type 0} where
  -- `loadDataResult?.testCases`, in a `for … of`
  unfoldable pub cases_of : {W : Type 0} → Option (StepOutput C S) → Async W (List (TestCase S))
  cases_of (some (loaded r cases)) = pure cases
  cases_of _ = throw (new_error "testCases is not iterable")

  -- `executeResult || { passedTests: 0, … }`
  abbrev pub counts_of : Option (StepOutput C S) → Counts
  counts_of (some (executed c)) = c
  counts_of _ = no_counts

  -- `if (testCases.length === 0) throw`
  unfoldable pub some_cases :
      {W : Type 0} → TestRun C → List (TestCase S) → Async W (StepOutput C S)
  some_cases r [] = throw (new_error "No test cases found for execution")
  some_cases r (c ∷ cs) = pure (loaded r (c ∷ cs))

module _ {C O S W : Type 0} (client : TestClient C S W) (runners : Runners O S W) where
  -- the runner that fits the type
  abbrev runner_of : TestType → TestCase S → Option String → Option O → Async W ExecutionResult
  runner_of TestType.web = runners.web
  runner_of TestType.api = runners.api

  -- the updates of a result record: after the runner has returned, and in the `catch`
  abbrev returned_update : ExecutionResult → ℕ → ResultUpdate
  returned_update result now = record {
    status = some result.status;
    started_at = some now;
    finished_at = some now;
    duration = some result.duration;
    logs = some result.logs;
    error_message = result.error_message;
    error_stack = result.error_stack;
    screenshot_url = result.screenshot_url;
    artifacts = none;
    step_results = some result.step_results;
  }

  abbrev thrown_update : Error → ℕ → ResultUpdate
  thrown_update e now = record {
    status = some TestResultStatus.error;
    started_at = none;
    finished_at = some now;
    duration = none;
    logs = none;
    error_message = some e.message;
    error_stack = runners.stack e;
    screenshot_url = none;
    artifacts = none;
    step_results = none;
  }

  -- what the `try` does after the runner has returned
  pub record_result : String → Counts → ExecutionResult → Async W Counts
  record_result id counts result w =
      (update_result client id (returned_update result (runners.today w)) >>= λ _.
      pure (count result.status counts))
        w

  -- the `catch`
  pub record_error : String → Counts → Error → Async W Counts
  record_error id counts e w =
      (update_result client id (thrown_update e (runners.today w)) >>= λ _.
      pure (record counts { failed = counts.failed + 1 }))
        w

  -- one test case with its result record
  pub try_case : ExecuteTestRunData O → TestCase S → String → Counts → Async W Counts
  try_case d c id counts =
      try_catch (runner_of c.type c d.environment d.config >>= record_result id counts) pure
        (record_error id counts)

  pub run_case : ExecuteTestRunData O → TestCase S → Counts → Async W Counts
  run_case d c counts = do
    result ← create_result client d.test_run_id c.id (some TestResultStatus.running)
    try_case d c result.id counts

  pub run_cases : ExecuteTestRunData O → List (TestCase S) → Counts → Async W Counts
  run_cases d [] counts = pure counts
  run_cases d (c ∷ cs) counts = run_case d c counts >>= λ counts'. run_cases d cs counts'

  unfoldable pub load_data : Async (State C O S W) (StepOutput C S)
  unfolding some_cases
  load_data = do
    d ← data_of
    r ← call (get_by_id client d.test_run_id)
    cases ← call (find_by_ids client d.test_case_ids)
    some_cases r cases

  unfoldable pub no_undo : Option (StepOutput C S) → Async (State C O S W) (Unit {0})
  no_undo result = pure tt

  unfoldable pub start_test_run : Async (State C O S W) (StepOutput C S)
  start_test_run = do
    d ← data_of
    r ← call (λ w. update client d.test_run_id (start_update (runners.today w)) w)
    pure (started r)

  unfoldable pub revert_test_run : Option (StepOutput C S) → Async (State C O S W) (Unit {0})
  revert_test_run result = do
    d ← data_of
    logged (call (update client d.test_run_id revert_update >>= λ _. pure tt))

  unfoldable pub execute_tests : Async (State C O S W) (StepOutput C S)
  unfolding cases_of record_result record_error try_case run_case run_cases
  execute_tests = do
    result ← get_result "LoadData"
    cases ← cases_of result
    d ← data_of
    counts ← call (run_cases d cases no_counts)
    pure (executed counts)

  abbrev final_update : Counts → ℕ → RunUpdate
  final_update c now = record {
    status = some (run_status c);
    started_at = none;
    finished_at = some now;
    total_tests = some (c.passed + c.failed + c.skipped);
    passed_tests = some c.passed;
    failed_tests = some c.failed;
    skipped_tests = some c.skipped;
  }

  unfoldable pub complete_test_run : Async (State C O S W) (StepOutput C S)
  complete_test_run = do
    result ← get_result "ExecuteTests"
    d ← data_of
    r ←
        call
          (λ w. update client d.test_run_id (final_update (counts_of result) (runners.today w)) w)
    pure (completed r (run_status (counts_of result)))

  unfoldable pub mark_error : Option (StepOutput C S) → Async (State C O S W) (Unit {0})
  mark_error result = do
    d ← data_of
    logged (
        call
          (λ w. (update client d.test_run_id (error_update (runners.today w)) >>= λ _. pure tt) w))

  abbrev pub execution_step :
      String
      → ℕ
      → Async (State C O S W) (StepOutput C S)
      → (Option (StepOutput C S) → Async (State C O S W) (Unit {0}))
      → SagaStep (ExecuteTestRunData O) (StepOutput C S) W
  execution_step name order body undo =
      plain (λ r. runners.elapsed name r.world) name (pos order) body undo

  unfoldable pub execution_steps : List (SagaStep (ExecuteTestRunData O) (StepOutput C S) W)
  execution_steps =
      execution_step "LoadData" 1 load_data no_undo
      ∷ execution_step "StartTestRun" 2 start_test_run revert_test_run
      ∷ execution_step "ExecuteTests" 3 execute_tests no_undo
      ∷ execution_step "CompleteTestRun" 4 complete_test_run mark_error
      ∷ []

  unfoldable pub execute_test_run :
      Services (ExecuteTestRunData O) (StepOutput C S) W
      → String
      → ExecuteTestRunData O
      → Async W (SagaResult (ExecuteTestRunData O) (StepOutput C S))
  execute_test_run svc uuid d = execute svc (execution_config uuid d) execution_steps d
