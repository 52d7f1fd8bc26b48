-- ===== src/ApiRunner/Types.antt =====
-- The steps of HTTP tests: domain/entities/test-case.entity.ts and test-enums.ts under
-- plugins/ai-agent-testing/src, of a step the fields that the runner reads, and what
-- infrastructure/runner/api-runner.ts there calls and keeps.
use plus_api.Common.{ℕ, String, Bool, Option}
use plus_api.Common.Dict.{Dict}
use plus_api.Common.Result.{Error, Async}

pub data TestStepType : Type 0 where
  navigate click type_text select wait screenshot scroll hover : TestStepType
  http_request : TestStepType
  assert_text assert_element assert_url assert_status assert_response assert_visible : TestStepType
  inject_xss inject_sql test_auth_bypass test_csrf scan_headers check_ssl : TestStepType
  custom : TestStepType

unfoldable pub type_name : TestStepType → String
type_name navigate = "NAVIGATE"
type_name click = "CLICK"
type_name type_text = "TYPE"
type_name select = "SELECT"
type_name wait = "WAIT"
type_name screenshot = "SCREENSHOT"
type_name scroll = "SCROLL"
type_name hover = "HOVER"
type_name http_request = "HTTP_REQUEST"
type_name assert_text = "ASSERT_TEXT"
type_name assert_element = "ASSERT_ELEMENT"
type_name assert_url = "ASSERT_URL"
type_name assert_status = "ASSERT_STATUS"
type_name assert_response = "ASSERT_RESPONSE"
type_name assert_visible = "ASSERT_VISIBLE"
type_name inject_xss = "INJECT_XSS"
type_name inject_sql = "INJECT_SQL"
type_name test_auth_bypass = "TEST_AUTH_BYPASS"
type_name test_csrf = "TEST_CSRF"
type_name scan_headers = "SCAN_HEADERS"
type_name check_ssl = "CHECK_SSL"
type_name custom = "CUSTOM"

pub record Assertion (J : Type 0) : Type 0 where
  pub path : String
  pub expected : Option J
  pub operator : Option String

-- what the runner reads of the options
pub record Options (J : Type 0) : Type 0 where
  pub method : Option String
  pub headers : Option (Dict String)
  pub body : Option J
  pub assertion : Option (Assertion J)

pub record TestStep (J : Type 0) : Type 0 where
  pub type : TestStepType
  pub description : String
  pub target : Option String
  pub value : Option String
  pub options : Option (Options J)

pub record Request : Type 0 where
  pub url : String
  pub method : String
  pub headers : Dict String
  pub body : Option String

-- what `fetch` and the response's `text()` give
pub record Reply : Type 0 where
  pub status : ℕ
  pub status_text : String
  pub headers : Dict String
  pub body : String

pub record LastResponse (J : Type 0) : Type 0 where
  pub status : ℕ
  pub status_text : String
  pub headers : Dict String
  pub body : J

-- the world, and the field `lastResponse` of the context
pub record Session (J W : Type 0) : Type 0 where
  pub world : W
  pub last_response : Option (LastResponse J)

pub record Http (J W : Type 0) : Type 0 where
  pub fetch : Request → Async W Reply
  pub parse : String → Option J  -- `JSON.parse`
  pub text : String → J
  pub body_text : J → String  -- a text itself, else `JSON.stringify`
  pub is_true : J → Bool  -- in a condition
  pub preview : J → String  -- `JSON.stringify(v, null, 2).substring(0, 500)`
  pub same : Option J → Option J → Bool  -- `===`
  pub show : Option J → String  -- `String(v)`
  pub show_ℕ : ℕ → String
  pub is_null : J → Bool
  pub field : String → J → Option J  -- of a value that is not null
  pub element : ℕ → J → Option J  -- likewise
  pub array_access : String → Option (String × ℕ)  -- by `/^(\w+)\[(\d+)\]$/` and `parseInt`
  pub now : W → ℕ
  pub iso : ℕ → String  -- `toISOString`
  pub stack : Error → Option String
