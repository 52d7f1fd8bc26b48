-- ===== src/TestExecution/Tests.antt =====
-- A test run of an API case that passes and a web case whose runner throws; the world is the run.
use plus_api.Common.{false, inr, String, ◌≡◌, refl, none, some, List, [], ◌∷◌, arith}
use plus_api.Common.Dict.{lookup}
use plus_api.Common.Result.{ok, err, new_error, Returns}
use plus_api.Saga.Types.{Services}
use plus_api.Saga.Steps.{sort_steps, run_loop}
use plus_api.Saga.Events.{publish_event}
use plus_api.Saga.Orchestrator.{execute}
use plus_api.Saga.Actions.{call, data_of, get_result}
use plus_api.TestRun.{TestRun, TestRunStatus, TestRunTriggerSource, final_status}
use plus_api.TestResult.{TestRunResult, TestResultStatus}
use plus_api.TestService.{
  TestType, TestCase, TestClient, get_by_id, update, create_result, update_result, find_by_ids,
}
use plus_api.TestExecution.{
  ExecuteTestRunData, ExecutionResult, Runners, Counts, StepOutput, executed, loaded, State, count,
  run_status, load_data, start_test_run, execute_tests, complete_test_run, execution_steps,
  execute_test_run,
}
use plus_api.TestExecution.Tally.{total, execute_tests_total}
use plus_api.TestExecution.View.{RunView, with_update}
use plus_api.TestExecution.Settled.{IsSettled, completed_view, execute_test_run-IsSettled}

abbrev row : TestRun (Unit {0})
row = record {
  id = "run-1";
  project_id = "p1";
  name = none;
  description = none;
  status = TestRunStatus.pending;
  trigger_source = TestRunTriggerSource.manual;
  started_at = none;
  finished_at = none;
  environment = none;
  config = none;
  total_tests = 0;
  passed_tests = 0;
  failed_tests = 0;
  skipped_tests = 0;
  build_id = none;
  commit_sha = none;
  branch = none;
  created_at = 0;
  updated_at = 0;
  created_by = none;
}

abbrev result_row : TestRunResult
result_row = record {
  id = "res-1";
  test_run_id = "run-1";
  test_case_id = "c1";
  status = TestResultStatus.running;
  started_at = none;
  finished_at = none;
  duration = none;
  logs = none;
  error_message = none;
  error_stack = none;
  screenshot_url = none;
  artifacts = none;
  step_results = none;
  created_at = 0;
  updated_at = 0;
}

abbrev case_of : String → TestType → TestCase (Unit {0})
case_of id type = record { id = id; name = id; type = type; content = tt }

abbrev cases : List (TestCase (Unit {0}))
cases = case_of "c1" TestType.api ∷ case_of "c2" TestType.web ∷ []

abbrev client : TestClient (Unit {0}) (Unit {0}) RunView
client = record {
  find_run = λ id w. (ok (some row), w);
  find_runs = λ f skip limit w. (ok [], w);
  count_runs = λ f w. (ok 0, w);
  update_run = λ id u w. (ok row, with_update u w);
  create_result = λ r c s w. (ok result_row, w);
  find_result = λ id w. (ok none, w);
  find_results = λ id w. (ok [], w);
  update_result = λ id u w. (ok result_row, w);
  find_cases = λ ids w. (ok cases, w);
}

abbrev success : ExecutionResult
success = record {
  status = TestResultStatus.passed;
  duration = 12;
  logs = "";
  error_message = none;
  error_stack = none;
  screenshot_url = none;
  step_results = [];
}

abbrev runners : Runners (Unit {0}) (Unit {0}) RunView
runners = record {
  web = λ c env o w. (err (new_error "no browser"), w);
  api = λ c env o w. (ok success, w);
  today = λ w. 1000;
  stack = λ e. none;
  elapsed = λ name w. 50;
}

abbrev input : ExecuteTestRunData (Unit {0})
input = record {
  test_run_id = "run-1";
  test_case_ids = "c1" ∷ "c2" ∷ [];
  environment = none;
  config = none;
}

abbrev services :
    Services (ExecuteTestRunData (Unit {0})) (StepOutput (Unit {0}) (Unit {0})) RunView
services = record { event_publisher = none; state_store = none; now = λ w. (0, w) }

abbrev waiting : RunView
waiting = record {
  status = TestRunStatus.pending;
  total_tests = 0;
  passed_tests = 0;
  failed_tests = 0;
  skipped_tests = 0;
}

one_of_two :
    (execute_test_run client runners services "x" input waiting).1
    ≡ completed_view (record { passed = 1; failed = 1; skipped = 0 })
unfolding execute_test_run execute run_loop sort_steps publish_event execution_steps load_data
    data_of call get_by_id find_by_ids start_test_run update execute_tests get_result create_result
    update_result count complete_test_run run_status final_status
one_of_two = refl

execute_test_run-IsSettled_example :
    let (result, w) = execute_test_run client runners services "x" input waiting in
    IsSettled client runners (λ w. w) (λ w. false) waiting result (w, false)
execute_test_run-IsSettled_example =
    execute_test_run-IsSettled client runners (λ w. w) (λ w. false) services
      (record { now = λ w. refl; publisher = tt }) tt "x" input waiting
      (record {
        updates = λ u w. ((λ was. was), refl);
        reverts = λ w. inr (row, refl);
        finds = λ j w. refl;
        finds_cases = λ ids w. refl;
        creates_result = λ r c s w. refl;
        updates_result = λ r u w. refl;
        runs_web = λ c env o w. refl;
        runs_api = λ c env o w. refl;
      })
      refl (λ name w. omega arith)

-- The state in which ExecuteTests finds the two cases.
abbrev after_load : State (Unit {0}) (Unit {0}) (Unit {0}) RunView
after_load = record {
  context = record {
    saga_id = "s";
    correlation_id = "s";
    content = input;
    metadata = record {
      started_at = 0;
      completed_at = none;
      failed_at = none;
      user_id = none;
      source = none;
      other = [];
    };
    step_results = ("LoadData", loaded row cases) ∷ [];
  };
  world = waiting;
}

execute_tests_total_example :
    Returns
      (λ v. (k : Counts) × (v ≡ executed k) × (total k ≡ 2))
      (execute_tests client runners after_load).0
unfolding lookup
execute_tests_total_example =
    execute_tests_total client runners
      (record { web = λ c env o w. tt; api = λ c env o w. ((λ e. cc), (λ e. cc)) }) input after_load
      row cases refl refl
