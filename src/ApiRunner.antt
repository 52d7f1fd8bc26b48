-- ===== src/ApiRunner.antt =====
-- The runner of HTTP tests: plugins/ai-agent-testing/src/infrastructure/runner/api-runner.ts. `fetch`,
-- JSON, the engine of regular expressions and the clock are parameters; `J` is the type of JSON values,
-- and `undefined` is `none`. Log output is left out, the log that the result carries is not.
pub mod Types
pub mod Url
pub mod Steps
pub mod Report
pub mod Offline
mod Tests
use Prim.Native.String.{◌++◌ as concat}
use plus_api.Common.{ℕ, ◌+◌, ◌-◌, String, Option, none, some, List, [], ◌∷◌, ◌++◌}
use plus_api.Common.Result.{ok, err, Error, Async}
use plus_api.TestResult.{StepResult, TestResultStatus}
use plus_api.TestService.{TestCase}
use plus_api.TestExecution.{ExecutionResult}
use Types.{TestStep, Http, Session}
use Steps.{execute_step}

-- `logs` and `stepResults`
pub record Progress : Type 0 where
  pub logs : List String
  pub step_results : List StepResult

-- `logs.join('\n')`
unfoldable pub join_lines : List String → String
join_lines [] = ""
join_lines (l ∷ []) = l
join_lines (l ∷ m ∷ ls) = concat l (concat "\n" (join_lines (m ∷ ls)))

-- `testCase.steps ?? []`
abbrev pub steps_or_empty : {A : Type 0} → Option (List A) → List A
steps_or_empty none = []
steps_or_empty (some steps) = steps

module _ {J W : Type 0} (http : Http J W) where
  -- a line of the log, with the time before it
  abbrev line : String → W → String
  line text w = concat "[" (concat (http.iso (http.now w)) (concat "] " text))

  abbrev number : ℕ → String
  number i = http.show_ℕ (i + 1)

  -- `Date.now() - startTime`, by a clock that does not go back
  abbrev since : ℕ → W → ℕ
  since start w = http.now w - start

  abbrev announced : TestStep J → ℕ → Progress → W → Progress
  announced step i p w = record p {
    logs =
        p.logs ++ line (concat "Step " (concat (number i) (concat ": " step.description))) w ∷ [];
  }

  abbrev passed_step : ℕ → ℕ → String → Progress → W → Progress
  passed_step i start log p w = record {
    logs =
        p.logs
        ++ line
            (concat "✓ Step "
              (concat (number i) (concat " passed (" (concat (http.show_ℕ (since start w)) "ms)"))))
            w
          ∷ log
          ∷ [];
    step_results =
        p.step_results
        ++ record {
          step_index = i;
          status = TestResultStatus.passed;
          started_at = some start;
          finished_at = some (http.now w);
          duration = some (since start w);
          log = some log;
          error_message = none;
          screenshot_url = none;
        }
          ∷ [];
  }

  abbrev failed_step : TestStep J → ℕ → ℕ → Error → Progress → W → Progress
  failed_step step i start e p w = record {
    logs =
        p.logs ++ line (concat "✗ Step " (concat (number i) (concat " failed: " e.message))) w ∷ [];
    step_results =
        p.step_results
        ++ record {
          step_index = i;
          status = TestResultStatus.failed;
          started_at = some start;
          finished_at = some (http.now w);
          duration = some (since start w);
          log = some (concat "Step failed: " step.description);
          error_message = some e.message;
          screenshot_url = none;
        }
          ∷ [];
  }

  abbrev failed_result : ℕ → Error → Progress → W → ExecutionResult
  failed_result start e p w = record {
    status = TestResultStatus.failed;
    duration = since start w;
    logs = join_lines p.logs;
    error_message = some e.message;
    error_stack = http.stack e;
    screenshot_url = none;
    step_results = p.step_results;
  }

  abbrev passed_result : ℕ → Progress → W → ExecutionResult
  passed_result start p w = record {
    status = TestResultStatus.passed;
    duration = since start w;
    logs = join_lines (
        p.logs
        ++ line
            (concat "Test completed successfully (" (concat (http.show_ℕ (since start w)) "ms)")) w
          ∷ []);
    error_message = none;
    error_stack = none;
    screenshot_url = none;
    step_results = p.step_results;
  }

  -- what `logs` holds before the first step
  abbrev first_progress : String → W → Progress
  first_progress name w = record {
    logs = line (concat "Starting test: " name) w ∷ [];
    step_results = [];
  }

module _ {J W : Type 0} (http : Http J W) (base_url : Option String) where
  -- the loop over the steps from number `i` on; nothing outside of the inner `try` throws, so the
  -- outer `catch` is not reached
  unfoldable pub run_steps :
      ℕ → List (TestStep J) → ℕ → Progress → Session J W → ExecutionResult × Session J W
  run_steps start [] i p s = (passed_result http start p s.world, s)
  run_steps start (step ∷ steps) i p s =
      let begun = http.now s.world in
      let p' = announced http step i p s.world in
      let (r, s') = execute_step http base_url step s in
      elim r [
        | ok log ↦ run_steps start steps (i + 1) (passed_step http i begun log p' s'.world) s'
        | err e ↦
            (failed_result http start e (failed_step http step i begun e p' s'.world) s'.world, s')
      ]

  unfoldable pub execute : TestCase (Option (List (TestStep J))) → Async W ExecutionResult
  execute c w =
      let (result, s) =
        run_steps (http.now w) (steps_or_empty c.content) 0 (first_progress http c.name w)
          (record { world = w; last_response = none }) in
      (ok result, s.world)
