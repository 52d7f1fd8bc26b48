-- ===== src/TestRun.antt =====
-- Test runs: the entity TestRun of plugins/ai-agent-testing/src/domain/entities/test-run.entity.ts and
-- its states in test-enums.ts. A method takes the entity and, where the source asks for the date, the
-- time in milliseconds.
pub mod Counts
mod Tests
use plus_api.Common.{ℕ, ◌+◌, String, Option, none, some, ◌&&◌, ltb, ◌==◌, if◌then◌else◌}

pub data TestRunStatus : Type 0 where
  pending running passed failed partial error cancelled : TestRunStatus

pub data TestRunTriggerSource : Type 0 where
  manual ci_cd schedule api : TestRunTriggerSource

-- `config` is an object of the type `C`.
pub record TestRun (C : Type 0) : Type 0 where
  pub id : String
  pub project_id : String
  pub name : Option String
  pub description : Option String
  pub status : TestRunStatus
  pub trigger_source : TestRunTriggerSource
  pub started_at : Option ℕ
  pub finished_at : Option ℕ
  pub environment : Option String
  pub config : Option C
  pub total_tests : ℕ
  pub passed_tests : ℕ
  pub failed_tests : ℕ
  pub skipped_tests : ℕ
  pub build_id : Option String
  pub commit_sha : Option String
  pub branch : Option String
  pub created_at : ℕ
  pub updated_at : ℕ
  pub created_by : Option String

-- the status that `complete` gives
unfoldable pub final_status : ℕ → ℕ → TestRunStatus
final_status successes failures =
    if failures == 0 && ltb 0 successes
    then TestRunStatus.passed
    else if successes == 0 && ltb 0 failures
    then TestRunStatus.failed
    else if ltb 0 successes && ltb 0 failures
    then TestRunStatus.partial
    else TestRunStatus.error

module _ {C : Type 0} where
  unfoldable pub start : ℕ → TestRun C → TestRun C
  start now r = record r { status = TestRunStatus.running; started_at = some now }

  unfoldable pub complete : ℕ → TestRun C → TestRun C
  complete now r = record r {
    finished_at = some now;
    status = final_status r.passed_tests r.failed_tests;
  }

  unfoldable pub cancel : ℕ → TestRun C → TestRun C
  cancel now r = record r { status = TestRunStatus.cancelled; finished_at = some now }

  unfoldable pub set_error : ℕ → TestRun C → TestRun C
  set_error now r = record r { status = TestRunStatus.error; finished_at = some now }

  unfoldable pub update_counts : ℕ → ℕ → ℕ → TestRun C → TestRun C
  update_counts successes failures skips r = record r {
    passed_tests = successes;
    failed_tests = failures;
    skipped_tests = skips;
    total_tests = successes + failures + skips;
  }

  unfoldable pub increment_passed : TestRun C → TestRun C
  increment_passed r = record r {
    passed_tests = r.passed_tests + 1;
    total_tests = r.total_tests + 1;
  }

  unfoldable pub increment_failed : TestRun C → TestRun C
  increment_failed r = record r {
    failed_tests = r.failed_tests + 1;
    total_tests = r.total_tests + 1;
  }

  unfoldable pub increment_skipped : TestRun C → TestRun C
  increment_skipped r = record r {
    skipped_tests = r.skipped_tests + 1;
    total_tests = r.total_tests + 1;
  }
