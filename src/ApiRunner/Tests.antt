-- ===== src/ApiRunner/Tests.antt =====
-- Tests of a server that knows one page, which is a number; J is the type of texts, and the world the
-- requests sent.
use plus_api.Common.{
  String, ◌≡◌, refl, Bool, true, false, Option, none, some, List, [], ◌∷◌, ◌++◌, map, str_eq,
  if◌then◌else◌,
}
use plus_api.Common.Result.{ok, err, new_error}
use plus_api.TestResult.{TestResultStatus}
use plus_api.TestService.{TestType, TestCase}
use plus_api.TestExecution.{ExecutionResult}
use plus_api.Consumer.Attempts.{parse_int}
use plus_api.ApiRunner.Types.{
  TestStepType, http_request, assert_status, assert_text, TestStep, Request, Http,
}
use plus_api.ApiRunner.Url.{resolve_url, without_last_slash, without_first_slash}
use plus_api.ApiRunner.Steps.{walk, split_dots, get_value_at_path, execute_step}
use plus_api.ApiRunner.{execute, run_steps}
use plus_api.ApiRunner.Report.{opened, in_turn, IsReport, entry, execute-IsReport}

abbrev equal : Option String → Option String → Bool
equal none none = true
equal none (some b) = false
equal (some a) none = false
equal (some a) (some b) = str_eq a b

abbrev text_of : Option String → String
text_of none = "undefined"
text_of (some s) = s

abbrev http : Http String (List Request)
http = record {
  fetch = λ q w.
      if str_eq q.url "http://shop/count"
      then (ok (record { status = 200; status_text = "OK"; headers = []; body = "7" }), w ++ q ∷ [])
      else (err (new_error "fetch failed"), w ++ q ∷ []);
  parse = λ s. some s;
  text = λ s. s;
  body_text = λ s. s;
  is_true = λ s. true;
  preview = λ s. s;
  same = equal;
  show = text_of;
  show_ℕ = λ n. "n";
  is_null = λ s. str_eq s "null";
  field = λ k v. if str_eq k "value" then some v else none;
  element = λ n v. none;
  array_access = λ s. none;
  now = λ w. 0;
  iso = λ n. "2024-05-01T10:00:00.000Z";
  stack = λ e. none;
}

abbrev step : TestStepType → Option String → TestStep String
step t value = record {
  type = t;
  description = "a step";
  target = some "/count";
  value = value;
  options = none;
}

abbrev test_case : List (TestStep String) → TestCase (Option (List (TestStep String)))
test_case steps = record { id = "c1"; name = "count"; type = TestType.api; content = some steps }

-- The second step asserts another status than the page has.
abbrev two_steps : List (TestStep String)
two_steps = step http_request none ∷ step assert_status (some "404") ∷ step assert_text none ∷ []

abbrev site : Option String
site = some "http://shop/"

resolves : resolve_url "/count" site ≡ "http://shop/count"
unfolding resolve_url without_last_slash without_first_slash
resolves = refl

finds_value : get_value_at_path http "7" "value.value" ≡ some "7"
unfolding get_value_at_path walk split_dots
finds_value = refl

-- The first step passes, the second fails, and the third is not run.
tells_of_two :
    map entry
      (run_steps http site 0 two_steps 0
        (record { logs = []; step_results = [] })
        (opened [])).0.step_results
    ≡ (0, TestResultStatus.passed) ∷ (1, TestResultStatus.failed) ∷ []
unfolding run_steps execute_step resolve_url without_last_slash without_first_slash parse_int
tells_of_two = refl

execute-IsReport_example :
    (r : ExecutionResult) × ((execute http site (test_case two_steps) []).0 ≡ ok r)
    × IsReport http site two_steps 0 (opened []) (in_turn http site two_steps (opened [])).0 r
    × ((execute http site (test_case two_steps) []).1
        ≡ (in_turn http site two_steps (opened [])).1.world)
execute-IsReport_example = execute-IsReport http site (test_case two_steps) []
