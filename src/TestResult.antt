-- ===== src/TestResult.antt =====
-- Results of a test run: the entity TestRunResult of
-- plugins/ai-agent-testing/src/domain/entities/test-run.entity.ts and its states in test-enums.ts. A
-- method takes the entity and, where the source asks for the date, the time in milliseconds.
pub mod Timing
mod Tests
use plus_api.Common.{ℕ, String, Option, none, some, List, [], ◌∷◌, ◌++◌, if◌then◌else◌}
use plus_api.Common.Int.{ℤ, sub_ℕ}
use plus_api.Common.Text.{is_truthy}

pub data TestResultStatus : Type 0 where
  pending running passed failed skipped error : TestResultStatus

pub record StepResult : Type 0 where
  pub step_index : ℕ
  pub status : TestResultStatus
  pub started_at : Option ℕ
  pub finished_at : Option ℕ
  pub duration : Option ℕ
  pub log : Option String
  pub error_message : Option String
  pub screenshot_url : Option String

pub record TestRunResult : Type 0 where
  pub id : String
  pub test_run_id : String
  pub test_case_id : String
  pub status : TestResultStatus
  pub started_at : Option ℕ
  pub finished_at : Option ℕ
  pub duration : Option ℤ
  pub logs : Option String
  pub error_message : Option String
  pub error_stack : Option String
  pub screenshot_url : Option String
  pub artifacts : Option (List String)
  pub step_results : Option (List StepResult)
  pub created_at : ℕ
  pub updated_at : ℕ

-- `if (text) this.field = text`
abbrev pub replace : Option String → Option String → Option String
replace new old = if is_truthy new then new else old

-- `if (this.startedAt) this.duration = this.finishedAt.getTime() - this.startedAt.getTime()`
abbrev pub duration_since : Option ℕ → ℕ → Option ℤ → Option ℤ
duration_since none finished old = old
duration_since (some started) finished old = some (sub_ℕ finished started)

-- `artifacts` with one more
abbrev pub push : Option (List String) → String → List String
push none url = url ∷ []
push (some urls) url = urls ++ url ∷ []

unfoldable pub start : ℕ → TestRunResult → TestRunResult
start now r = record r { status = TestResultStatus.running; started_at = some now }

unfoldable pub pass : Option String → ℕ → TestRunResult → TestRunResult
pass logs now r = record r {
  status = TestResultStatus.passed;
  finished_at = some now;
  logs = replace logs r.logs;
  duration = duration_since r.started_at now r.duration;
}

unfoldable pub fail : String → Option String → Option String → ℕ → TestRunResult → TestRunResult
fail message stack url now r = record r {
  status = TestResultStatus.failed;
  finished_at = some now;
  error_message = some message;
  error_stack = replace stack r.error_stack;
  screenshot_url = replace url r.screenshot_url;
  duration = duration_since r.started_at now r.duration;
}

unfoldable pub skip : TestRunResult → TestRunResult
skip r = record r { status = TestResultStatus.skipped }

unfoldable pub set_error : String → ℕ → TestRunResult → TestRunResult
set_error message now r = record r {
  status = TestResultStatus.error;
  error_message = some message;
  finished_at = some now;
}

unfoldable pub set_step_results : List StepResult → TestRunResult → TestRunResult
set_step_results steps r = record r { step_results = some steps }

unfoldable pub add_artifact : String → TestRunResult → TestRunResult
add_artifact url r = record r { artifacts = some (push r.artifacts url) }
