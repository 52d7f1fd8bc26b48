-- ===== src/ApiRunner/Steps.antt =====
-- One step of an HTTP test: executeStep and getValueAtPath of
-- plugins/ai-agent-testing/src/infrastructure/runner/api-runner.ts.
use Prim.Native.Char.{code}
use Prim.Native.String.{◌++◌ as concat}
use text.Mathlib.Text.{find?}
use plus_api.Common.{
  ℕ, String, Bool, true, false, not, ◌&&◌, Option, none, some, List, [], ◌∷◌, str_eq, ◌==◌,
  if◌then◌else◌,
}
use plus_api.Common.Dict.{Dict, insert}
use plus_api.Common.Text.{is_found, or_text, join_first}
use plus_api.Common.Result.{ok, err, new_error, Async, pure, throw, ◌>>=◌, ◌>>◌}
use plus_api.Consumer.Attempts.{Count, nan, count, minus, parse_int}
use plus_api.ApiRunner.Url.{resolve_url}
use plus_api.ApiRunner.Types.{
  http_request, assert_status, assert_response, type_name, Assertion, Options, TestStep, Request,
  Reply, LastResponse, Session, Http,
}

-- `{ ...m, ...n }`
unfoldable pub spread : Dict String → Dict String → Dict String
spread m [] = m
spread m ((k, v) ∷ n) = spread (insert k v m) n

-- `path.split('.')`
unfoldable pub split_dots : String → List String
split_dots String.[] = String.[] ∷ []
split_dots (String.◌∷◌ c s) =
    let rest = split_dots s in if code c == b'.' then String.[] ∷ rest else join_first c rest

-- `step.options || {}`
abbrev pub options_of : {J : Type 0} → TestStep J → Options J
options_of step = elim step.options [
  | some o ↦ o
  | none ↦ record { method = none; headers = none; body = none; assertion = none }
]

abbrev pub or_empty : Option (Dict String) → Dict String
or_empty none = []
or_empty (some m) = m

-- `status !== expected`; `NaN` differs from every number
abbrev pub is_status : ℕ → Count → Bool
is_status n nan = false
is_status n (count m) = n == m
is_status n (minus m) = n == 0 && m == 0

module _ {J W : Type 0} (http : Http J W) where
  abbrev show_count : Count → String
  show_count nan = "NaN"
  show_count (count n) = http.show_ℕ n
  show_count (minus n) = if n == 0 then "0" else concat "-" (http.show_ℕ n)

  -- a value that has fields
  abbrev present : Option J → Option J
  present none = none
  present (some v) = if http.is_null v then none else some v

  -- `v?.[key]`
  abbrev field_of : String → Option J → Option J
  field_of key v = elim (present v) [ none ↦ none | some u ↦ http.field key u ]

  abbrev element_of : ℕ → Option J → Option J
  element_of n v = elim (present v) [ none ↦ none | some u ↦ http.element n u ]

  abbrev step_into : String → J → Option J
  step_into part v = elim (http.array_access part) [
    | none ↦ http.field part v
    | some (name, n) ↦ element_of n (http.field name v)
  ]

  -- the loop of `getValueAtPath`
  unfoldable pub walk : List String → Option J → Option J
  walk [] v = v
  walk (part ∷ parts) v = elim (present v) [ none ↦ none | some u ↦ walk parts (step_into part u) ]

  unfoldable pub get_value_at_path : J → String → Option J
  get_value_at_path v path = walk (split_dots path) (some v)

  -- `if (body && method !== 'GET')`
  abbrev body_for : String → Option J → Option String
  body_for method none = none
  body_for method (some v) =
      if http.is_true v && not (str_eq method "GET") then some (http.body_text v) else none

  abbrev request_of : Option String → TestStep J → Request
  request_of base_url step =
      let method = or_text (options_of step).method "GET" in
      record {
        url = resolve_url (or_text step.target "") base_url;
        method = method;
        headers =
            spread (("Content-Type", "application/json") ∷ []) (or_empty (options_of step).headers);
        body = body_for method (options_of step).body;
      }

  abbrev parsed : String → J
  parsed body = elim (http.parse body) [ some v ↦ v | none ↦ http.text body ]

  -- the `fetch` in a session
  abbrev fetched : Request → Async (Session J W) Reply
  fetched q s = let (r, w) = http.fetch q s.world in (r, record s { world = w })

  abbrev stored : LastResponse J → Async (Session J W) (Unit {0})
  stored response s = (ok tt, record s { last_response = some response })

  abbrev keep_reply : Reply → Async (Session J W) String
  keep_reply reply =
      stored (record {
        status = reply.status;
        status_text = reply.status_text;
        headers = reply.headers;
        body = parsed reply.body;
      })
      >> pure (
          concat "Response: " (
            concat (http.show_ℕ reply.status) (
              concat " "
                (concat reply.status_text (concat "\n" (http.preview (parsed reply.body)))))))

  -- `if (!lastResponse) throw`
  abbrev last : Async (Session J W) (LastResponse J)
  last s = elim s.last_response [
    | some response ↦ (ok response, s)
    | none ↦ (err (new_error "No response to assert. Make an HTTP request first."), s)
  ]

  abbrev check_status : Count → LastResponse J → Async (Session J W) String
  check_status expected response =
      if is_status response.status expected
      then pure (
          concat "Status assertion passed: "
            (concat (http.show_ℕ response.status) (concat " === " (show_count expected))))
      else throw (
          new_error (
            concat "Expected status "
              (concat (show_count expected) (concat " but got " (http.show_ℕ response.status)))))

  -- the `switch` on the operator; an unknown one is `none`
  abbrev holds : String → Option J → Option J → Option Bool
  holds operator actual expected =
      if str_eq operator "equals"
      then some (http.same actual expected)
      else if str_eq operator "contains"
      then some (is_found (find? (http.show actual) (http.show expected)))
      else if str_eq operator "exists"
      then some (is_defined actual)
      else if str_eq operator "notNull"
      then some (is_defined (present actual))
      else none
    where
      is_defined : Option J → Bool
      is_defined none = false
      is_defined (some v) = true

  abbrev described : Assertion J → String → String
  described a operator =
      concat a.path (concat " " (concat operator (concat " " (http.show a.expected))))

  abbrev verdict : Assertion J → String → Option J → Option Bool → Async (Session J W) String
  verdict a operator actual none =
      throw (new_error (concat "Unknown assertion operator: " operator))
  verdict a operator actual (some true) =
      pure (concat "Response assertion passed: " (described a operator))
  verdict a operator actual (some false) = throw (
      new_error (
        concat "Assertion failed: "
          (concat (described a operator) (concat ", got " (http.show actual)))))

  -- `operator = 'equals'`
  abbrev operator_of : Option String → String
  operator_of none = "equals"
  operator_of (some operator) = operator

  abbrev check_assertion : Option (Assertion J) → LastResponse J → Async (Session J W) String
  check_assertion none response = throw (new_error "No assertion specified in step options")
  check_assertion (some a) response =
      let operator = operator_of a.operator in
      let actual = get_value_at_path response.body a.path in
      verdict a operator actual (holds operator actual a.expected)

  unfoldable pub execute_step : Option String → TestStep J → Async (Session J W) String
  execute_step base_url step = elim step.type [
    | http_request ↦ fetched (request_of base_url step) >>= keep_reply
    | assert_status ↦ last >>= check_status (parse_int (or_text step.value "200"))
    | assert_response ↦ last >>= check_assertion (options_of step).assertion
    | other ↦ pure (concat "Skipped step type: " (type_name other))
  ]
