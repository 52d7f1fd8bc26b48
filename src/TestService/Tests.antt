-- ===== src/TestService/Tests.antt =====
-- Three test runs in pages of two.
use plus_api.Common.{String, ◌≡◌, refl, none, List, [], ◌∷◌, arith}
use plus_api.Common.Int.{pos_part}
use plus_api.Common.Lists.{length, take, drop}
use plus_api.Common.Result.{ok, err, new_error}
use plus_api.TestRun.{TestRun, TestRunStatus, TestRunTriggerSource}
use plus_api.TestService.{TestClient}
use plus_api.TestService.Pages.{read_all, read_all_lem}

abbrev test_run : String → TestRun (Unit {0})
test_run id = record {
  id = id;
  project_id = "p1";
  name = none;
  description = none;
  status = TestRunStatus.passed;
  trigger_source = TestRunTriggerSource.manual;
  started_at = none;
  finished_at = none;
  environment = none;
  config = none;
  total_tests = 0;
  passed_tests = 0;
  failed_tests = 0;
  skipped_tests = 0;
  build_id = none;
  commit_sha = none;
  branch = none;
  created_at = 0;
  updated_at = 0;
  created_by = none;
}

abbrev Rows : Type 0
Rows = List (TestRun (Unit {0}))

-- a client that knows runs only
abbrev client : TestClient (Unit {0}) (Unit {0}) Rows
client = record {
  find_run = λ id w. (ok none, w);
  find_runs = λ f skip limit w. (ok (take limit (drop (pos_part skip) w)), w);
  count_runs = λ f w. (ok (length w), w);
  update_run = λ id u w. (err (new_error "read only"), w);
  create_result = λ r c s w. (err (new_error "read only"), w);
  find_result = λ id w. (ok none, w);
  find_results = λ id w. (ok [], w);
  update_result = λ id u w. (err (new_error "read only"), w);
  find_cases = λ ids w. (ok [], w);
}

abbrev runs : Rows
runs = test_run "r3" ∷ test_run "r2" ∷ test_run "r1" ∷ []

read_all_lem_example : read_all client (λ f w. w) "p1" none none 2 3 1 runs ≡ (ok runs, runs)
read_all_lem_example =
    read_all_lem client (λ f w. w) "p1" none none 2
      (record { page = λ f skip limit w. refl; counted = λ f w. refl }) 3 runs (omega arith)
      (omega arith)
