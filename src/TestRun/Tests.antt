-- ===== src/TestRun/Tests.antt =====
-- A test run of three tests.
use plus_api.Common.{◌≡◌, refl, none, List, [], ◌∷◌}
use plus_api.TestRun.{
  TestRun, TestRunStatus, TestRunTriggerSource, start, complete, increment_passed, increment_failed,
  increment_skipped, final_status,
}
use plus_api.TestRun.Counts.{
  Call, passes, fails, skips, starts, completes, perform_all, IsBalanced, perform_all-IsBalanced,
}

abbrev new_run : TestRun (Unit {0})
new_run = record {
  id = "r1";
  project_id = "p1";
  name = none;
  description = none;
  status = TestRunStatus.pending;
  trigger_source = TestRunTriggerSource.manual;
  started_at = none;
  finished_at = none;
  environment = none;
  config = none;
  total_tests = 0;
  passed_tests = 0;
  failed_tests = 0;
  skipped_tests = 0;
  build_id = none;
  commit_sha = none;
  branch = none;
  created_at = 0;
  updated_at = 0;
  created_by = none;
}

abbrev three : List Call
three = starts 1 ∷ passes ∷ fails ∷ skips ∷ completes 2 ∷ []

partly_passed : (perform_all three new_run).status ≡ TestRunStatus.partial
unfolding start complete increment_passed increment_failed increment_skipped final_status
partly_passed = refl

perform_all-IsBalanced_example : IsBalanced (perform_all three new_run)
perform_all-IsBalanced_example = perform_all-IsBalanced three new_run refl
