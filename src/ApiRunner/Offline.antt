-- ===== src/ApiRunner/Offline.antt =====
-- Tests that send no request.
use Prim.Native.String.{◌++◌ as concat}
use plus_api.Common.{
  String, ◌≡◌, refl, inl, inr, Bool, true, false, ◌||◌, Option, List, [], ◌∷◌, arith, Bool-cases,
  if◌then◌else◌,
}
use plus_api.Common.Result.{ok, err, Error, new_error}
use plus_api.TestResult.{TestResultStatus}
use plus_api.TestService.{TestCase}
use plus_api.TestExecution.{ExecutionResult}
use plus_api.ApiRunner.Types.{
  TestStepType, http_request, assert_status, assert_response, type_name, Options, TestStep, Http,
}
use plus_api.ApiRunner.Steps.{execute_step}
use plus_api.ApiRunner.{steps_or_empty, execute}
use plus_api.ApiRunner.Report.{in_turn, opened, execute-IsReport}

abbrev pub is_request : TestStepType → Bool
is_request http_request = true
is_request other = false

-- the assertions that the runner knows, which are on a response
abbrev pub is_assertion : TestStepType → Bool
is_assertion assert_status = true
is_assertion assert_response = true
is_assertion other = false

unfoldable pub has_type : {J : Type 0} → (TestStepType → Bool) → List (TestStep J) → Bool
has_type test [] = false
has_type test (step ∷ steps) = test step.type || has_type test steps

abbrev no_response : Error
no_response = new_error "No response to assert. Make an HTTP request first."

module _ {J W : Type 0} (http : Http J W) (base_url : Option String) where
  execute_offline_step :
      (t : TestStepType) (d : String) (target value : Option String) (o : Option (Options J))
      (w : W)
      → is_request t ≡ false
      → execute_step http base_url
          (record { type = t; description = d; target = target; value = value; options = o })
          (opened w)
        ≡ (if is_assertion t
            then (err no_response, opened w)
            else (ok (concat "Skipped step type: " (type_name t)), opened w))
  unfolding execute_step
  execute_offline_step http_request d target value o w h = cc
  execute_offline_step assert_status d target value o w h = refl
  execute_offline_step assert_response d target value o w h = refl
  execute_offline_step other d target value o w h = refl

  in_turn_offline :
      (steps : List (TestStep J)) (w : W)
      → has_type is_request steps ≡ false
      → in_turn http base_url steps (opened w)
        ≡ (if has_type is_assertion steps then (err no_response, opened w) else (ok tt, opened w))
  unfolding in_turn has_type
  in_turn_offline [] w h = refl
  in_turn_offline (step ∷ steps) w h =
      let now : execute_step http base_url step (opened w) ≡ (
          if is_assertion step.type
          then (err no_response, opened w)
          else (ok (concat "Skipped step type: " (type_name step.type)), opened w)) =
        execute_offline_step step.type step.description step.target step.value step.options w
          (ground arith) in
      elim (Bool-cases (is_assertion step.type)) [
        | inl asserts ↦ rw (now, asserts) refl
        | inr skips ↦ rw (now, skips) (in_turn_offline steps w (ground arith))
      ]

  -- A test none of whose steps sends a request leaves the world as it is, and returns a result: FAILED
  -- if one of its steps asserts something of a response, and PASSED otherwise, whatever other
  -- assertions it makes.
  pub execute_offline :
      (c : TestCase (Option (List (TestStep J)))) (w : W)
      → has_type is_request (steps_or_empty c.content) ≡ false
      → (r : ExecutionResult) × (execute http base_url c w ≡ (ok r, w))
        × (r.status ≡ (
            if has_type is_assertion (steps_or_empty c.content)
            then TestResultStatus.failed
            else TestResultStatus.passed))
  execute_offline c w h =
      let (r, returned, report, same) = execute-IsReport http base_url c w in
      let done = in_turn_offline (steps_or_empty c.content) w h in
      elim (Bool-cases (has_type is_assertion (steps_or_empty c.content))) [
        | inl asserts ↦
            let report' = rw (done, asserts) at report in
            let same' = rw (done, asserts) at same in (r, cc, rw asserts report'.0)
        | inr skips ↦
            let report' = rw (done, skips) at report in
            let same' = rw (done, skips) at same in (r, cc, rw skips report'.0)
      ]
