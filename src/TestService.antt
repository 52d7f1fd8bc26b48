-- ===== src/TestService.antt =====
-- The services of the test runs: plugins/ai-agent-testing/src/application/services/test-run.service.ts,
-- and `findByIds` of test-case.service.ts. The Prisma client is a parameter, and its rows are the
-- entities, since `mapToTestRun`, `mapToTestRunResult` and `mapToEntity` copy each field.
pub mod Pages
mod Tests
use Prim.Native.String.{◌++◌ as concat}
use plus_api.Common.{ℕ, ◌+◌, ◌*◌, String, Bool, Option, none, some, List, map, ltb, if◌then◌else◌}
use plus_api.Common.Int.{ℤ, sub_ℕ, leb_ℤ}
use plus_api.Common.Lists.{length}
use plus_api.Common.Result.{Async, ErrorClass, pure, throw, ◌>>=◌}
use plus_api.TestRun.{TestRun, TestRunStatus, TestRunTriggerSource}
use plus_api.TestResult.{TestRunResult, TestResultStatus, StepResult}

pub data TestType : Type 0 where
  web api : TestType

-- A test case: the fields that the saga and the runners read, and the rest.
pub record TestCase (S : Type 0) : Type 0 where
  pub id : String
  pub name : String
  pub type : TestType
  pub content : S

-- `data` of `testRun.update`; Prisma leaves a field alone that is undefined.
pub record RunUpdate : Type 0 where
  pub status : Option TestRunStatus
  pub started_at : Option ℕ
  pub finished_at : Option ℕ
  pub total_tests : Option ℕ
  pub passed_tests : Option ℕ
  pub failed_tests : Option ℕ
  pub skipped_tests : Option ℕ

-- `data` of `testRunResult.update`
pub record ResultUpdate : Type 0 where
  pub status : Option TestResultStatus
  pub started_at : Option ℕ
  pub finished_at : Option ℕ
  pub duration : Option ℕ
  pub logs : Option String
  pub error_message : Option String
  pub error_stack : Option String
  pub screenshot_url : Option String
  pub artifacts : Option (List String)
  pub step_results : Option (List StepResult)

-- `where` of the queries by project
pub record RunFilter : Type 0 where
  pub project_id : String
  pub status : Option TestRunStatus
  pub trigger_source : Option TestRunTriggerSource

pub record PageOptions : Type 0 where
  pub page : Option ℕ
  pub limit : Option ℕ
  pub status : Option TestRunStatus
  pub trigger_source : Option TestRunTriggerSource

pub record RunPage (C : Type 0) : Type 0 where
  pub test_runs : List (TestRun C)
  pub total : ℕ
  pub has_more : Bool

-- the calls of Prisma
pub record TestClient (C S W : Type 0) : Type 0 where
  pub find_run : String → Async W (Option (TestRun C))
  pub find_runs : RunFilter → ℤ → ℕ → Async W (List (TestRun C))  -- skip, take
  pub count_runs : RunFilter → Async W ℕ
  pub update_run : String → RunUpdate → Async W (TestRun C)
  pub create_result : String → String → TestResultStatus → Async W TestRunResult
  pub find_result : String → Async W (Option TestRunResult)
  pub find_results : String → Async W (List TestRunResult)
  pub update_result : String → ResultUpdate → Async W TestRunResult
  pub find_cases : List String → Async W (List (TestCase S))

-- `options?.page ?? 1`
abbrev pub or_default : Option ℕ → ℕ → ℕ
or_default none n = n
or_default (some m) n = m

-- `input.status || TestResultStatus.PENDING`
abbrev pub or_pending : Option TestResultStatus → TestResultStatus
or_pending none = TestResultStatus.pending
or_pending (some s) = s

module _ {C W : Type 0} where
  -- the `if (!testRun) throw`
  unfoldable pub found_or_throw : String → Option (TestRun C) → Async W (TestRun C)
  found_or_throw id none = throw (record {
    class = ErrorClass.not_found;
    message = concat "Test run with ID " (concat id " not found");
    code = none;
  })
  found_or_throw id (some r) = pure r

module _ {C S W : Type 0} (client : TestClient C S W) where
  unfoldable pub find_by_id : String → Async W (Option (TestRun C))
  find_by_id id = client.find_run id

  unfoldable pub get_by_id : String → Async W (TestRun C)
  unfolding found_or_throw find_by_id
  get_by_id id = do r ← find_by_id id; found_or_throw id r

  -- `skip` is (page - 1) * limit, which is negative for page 0.
  unfoldable pub find_by_project_id : String → PageOptions → Async W (RunPage C)
  find_by_project_id project_id options =
      let page = or_default options.page 1 in
      let limit = or_default options.limit 10 in
      let filter : RunFilter = record {
        project_id = project_id;
        status = options.status;
        trigger_source = options.trigger_source;
      } in
      do
        runs ← client.find_runs filter (sub_ℕ (page * limit) limit) limit
        total ← client.count_runs filter
        pure (record {
          test_runs = runs;
          total = total;
          has_more = ltb (page * limit + length runs) (total + limit);
        })

  unfoldable pub update : String → RunUpdate → Async W (TestRun C)
  update id input = client.update_run id input

  unfoldable pub create_result : String → String → Option TestResultStatus → Async W TestRunResult
  create_result run_id case_id status = client.create_result run_id case_id (or_pending status)

  unfoldable pub find_result_by_id : String → Async W (Option TestRunResult)
  find_result_by_id id = client.find_result id

  unfoldable pub find_results_by_test_run_id : String → Async W (List TestRunResult)
  find_results_by_test_run_id id = client.find_results id

  unfoldable pub update_result : String → ResultUpdate → Async W TestRunResult
  update_result id input = client.update_result id input

  unfoldable pub find_by_ids : List String → Async W (List (TestCase S))
  find_by_ids ids = client.find_cases ids
