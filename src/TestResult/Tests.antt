-- ===== src/TestResult/Tests.antt =====
-- A result that is started, passes, and is started again.
use plus_api.Common.{◌≡◌, refl, none, some, List, [], ◌∷◌, arith}
use plus_api.Common.Int.{pos}
use plus_api.TestResult.{TestRunResult, TestResultStatus, start, pass, add_artifact}
use plus_api.TestResult.Timing.{Call, starts, passes, adds_artifact, perform_all, IsTimed}

abbrev new_result : TestRunResult
new_result = record {
  id = "t1";
  test_run_id = "r1";
  test_case_id = "c1";
  status = TestResultStatus.pending;
  started_at = none;
  finished_at = none;
  duration = none;
  logs = none;
  error_message = none;
  error_stack = none;
  screenshot_url = none;
  artifacts = none;
  step_results = none;
  created_at = 0;
  updated_at = 0;
}

abbrev calls : List Call
calls = starts 5 ∷ passes none 9 ∷ adds_artifact "a.png" ∷ []

took_four : (perform_all calls new_result).duration ≡ some (pos 4)
unfolding start pass add_artifact
took_four = refl

new_result-IsTimed : IsTimed new_result
new_result-IsTimed = ground arith
