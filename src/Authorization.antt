-- ===== src/Authorization.antt =====
-- The guards that let a request through: shared/authorization/src/guards/auth.guard.ts,
-- permission.guard.ts and auth-permission.guard.ts. What the decorators declare on the handler, the
-- GraphQL arguments and the two services are parameters. Log output is left out.
pub mod Token
pub mod Combined
pub mod Safety
pub mod Refusal
mod Tests
use plus_api.Common.{
  ℕ, zero, suc, String, Option, none, some, Bool, true, false, not, ◌||◌, if◌then◌else◌,
}
use plus_api.Common.Text.{is_truthy, or_text}
use plus_api.Common.Dict.{Dict, lookup}
use text.Mathlib.Text.{starts_with}
use Prim.Native.String.{◌++◌ as concat}

-- what a guard or a service throws; `other` is a value that is not an `Error`
pub data Exception : Type 0 where
  unauthorized : String → Exception
  forbidden : String → Exception
  error : String → Exception
  other : Exception

pub data Settled (A : Type 0) : Type 0 where
  returned : A → Settled A
  thrown : Exception → Settled A

-- what the decorators declare, as the reflector reads it: `permissions` of the type `P`
pub record Metadata (P : Type 0) : Type 0 where
  pub is_public : Bool
  pub permissions : Option P
  pub organization_id : Option String  -- the argument that names the organization

-- the arguments that are texts, and those of `input`
pub record Arguments : Type 0 where
  pub direct : Dict String
  pub input : Option (Dict String)

-- what `getSession` answers
pub record Login (S U : Type 0) : Type 0 where
  pub session : Option S
  pub user : Option U

-- the GraphQL context `ctx`; `authorization` is `ctx.req?.headers?.authorization`
pub record Context (S U : Type 0) : Type 0 where
  pub authorization : Option String
  pub session : Option S
  pub user : Option U
  pub session_token : Option String
  pub organization_id : Option String

pub record Verdict : Type 0 where
  pub success : Bool
  pub error : Option String

-- the request's context, with the world that the services see
pub record Request (S U W : Type 0) : Type 0 where
  pub context : Context S U
  pub world : W

pub record AuthServices (S U P W : Type 0) : Type 0 where
  pub get_session : String → W → Settled (Option (Login S U)) × W
  pub has_permission : String → P → Option String → W → Settled (Option Verdict) × W

abbrev pub message_of : Exception → String
message_of (unauthorized m) = m
message_of (forbidden m) = m
message_of (error m) = m
message_of other = "Unknown error"

-- the first guard's `catch`
abbrev pub authentication_failed : Exception → Exception
authentication_failed (unauthorized m) = unauthorized m
authentication_failed e = unauthorized (concat "Authentication failed: " (message_of e))

-- the second guard's `catch`
abbrev pub permission_failed : Exception → Exception
permission_failed (forbidden m) = forbidden m
permission_failed e = forbidden (concat "Permission check failed: " (message_of e))

abbrev pub catching : {A S : Type 0} → (Exception → Exception) → Settled A × S → Settled A × S
catching f (returned a, s) = (returned a, s)
catching f (thrown e, s) = (thrown (f e), s)

-- `text.substring(n)`
abbrev pub substring : String → ℕ → String
substring s zero = s
substring String.[] (suc n) = ""
substring (String.◌∷◌ c s) (suc n) = substring s n

-- the token of `Bearer <token>`
unfoldable pub bearer_token : Option String → Option String
bearer_token none = none
bearer_token (some header) =
    if not (is_truthy (some header)) || not (starts_with header "Bearer ")
    then none
    else some (substring header 7)

-- `args.input && args.input[name]`
abbrev pub input_field : String → Option (Dict String) → Option String
input_field name none = none
input_field name (some fields) = lookup name fields

module _ {S U : Type 0} where
  -- ctx.session = session.session; ctx.user = session.user; ctx.sessionToken = sessionToken
  abbrev pub signed_in : String → Login S U → Context S U → Context S U
  signed_in token login c = record {
    authorization = c.authorization;
    session = login.session;
    user = login.user;
    session_token = some token;
    organization_id = c.organization_id;
  }

  unfoldable pub organization_of :
      {P : Type 0} → Metadata P → Arguments → Context S U → Option String
  organization_of meta args c =
      let name = or_text meta.organization_id "organizationId" in
      if is_truthy (lookup name args.direct)
      then lookup name args.direct
      else if is_truthy (input_field name args.input)
      then input_field name args.input
      else if is_truthy c.organization_id
      then c.organization_id
      else none

  -- PermissionGuard: the token that AuthGuard left, or else the header's
  unfoldable pub token_of : Context S U → Option String
  token_of c = if is_truthy c.session_token then c.session_token else bearer_token c.authorization

module _ {S U W : Type 0} where
  abbrev pub keep_login :
      String → Context S U → Settled (Option (Login S U)) × W → Settled (Unit {0}) × Request S U W
  keep_login token c (returned (some login), w) =
      (returned tt, record { context = signed_in token login c; world = w })
  keep_login token c (returned none, w) =
      (thrown (unauthorized "Invalid or expired session"), record { context = c; world = w })
  keep_login token c (thrown e, w) = (thrown e, record { context = c; world = w })

  abbrev pub allowed : Settled (Unit {0}) × Request S U W → Settled Bool × Request S U W
  allowed (returned _, r) = (returned true, r)
  allowed (thrown e, r) = (thrown e, r)

  abbrev pub judge : Context S U → Settled (Option Verdict) × W → Settled Bool × Request S U W
  judge c (returned none, w) =
      (thrown (forbidden "Insufficient permissions"), record { context = c; world = w })
  judge c (returned (some v), w) = (
    if v.success
        then returned true
        else thrown (forbidden (or_text v.error "Insufficient permissions")),
    record { context = c; world = w },
  )
  judge c (thrown e, w) = (thrown e, record { context = c; world = w })

module _ {S U P W : Type 0} (services : AuthServices S U P W) where
  -- the `try` that validates the session
  unfoldable pub open_session : String → Request S U W → Settled (Unit {0}) × Request S U W
  open_session token r =
      catching authentication_failed
        (keep_login token r.context (services.get_session token r.world))

  -- AuthGuard
  abbrev pub authenticate : Option String → Request S U W → Settled Bool × Request S U W
  authenticate none r = (thrown (unauthorized "No authorization token provided"), r)
  authenticate (some token) r = allowed (open_session token r)

  unfoldable pub auth_guard : Metadata P → Request S U W → Settled Bool × Request S U W
  auth_guard meta r =
      if meta.is_public
      then (returned true, r)
      else authenticate (bearer_token r.context.authorization) r

  -- the `try` that asks for the permissions
  unfoldable pub check_permissions :
      Metadata P → Arguments → P → String → Request S U W → Settled Bool × Request S U W
  check_permissions meta args required token r = catching permission_failed (
      judge r.context
        (services.has_permission token required (organization_of meta args r.context) r.world))

  -- PermissionGuard
  abbrev pub authorize :
      Metadata P → Arguments → P → Option String → Request S U W → Settled Bool × Request S U W
  authorize meta args required none r =
      (thrown (forbidden "No authorization token for permission check"), r)
  authorize meta args required (some token) r = check_permissions meta args required token r

  abbrev pub require_permissions :
      Metadata P → Arguments → Option P → Request S U W → Settled Bool × Request S U W
  require_permissions meta args none r = (returned true, r)
  require_permissions meta args (some required) r =
      authorize meta args required (token_of r.context) r

  unfoldable pub permission_guard :
      Metadata P → Arguments → Request S U W → Settled Bool × Request S U W
  permission_guard meta args r = require_permissions meta args meta.permissions r

  -- AuthPermissionGuard
  abbrev pub permit :
      Metadata P → Arguments → Option P → String → Request S U W → Settled Bool × Request S U W
  permit meta args none token r = (returned true, r)
  permit meta args (some required) token r = check_permissions meta args required token r

  abbrev pub then_permit :
      Metadata P
      → Arguments
      → String
      → Settled (Unit {0}) × Request S U W
      → Settled Bool × Request S U W
  then_permit meta args token (returned _, r) = permit meta args meta.permissions token r
  then_permit meta args token (thrown e, r) = (thrown e, r)

  abbrev pub authenticate_and_permit :
      Metadata P → Arguments → Option String → Request S U W → Settled Bool × Request S U W
  authenticate_and_permit meta args none r =
      (thrown (unauthorized "No authorization token provided"), r)
  authenticate_and_permit meta args (some token) r =
      then_permit meta args token (open_session token r)

  unfoldable pub auth_permission_guard :
      Metadata P → Arguments → Request S U W → Settled Bool × Request S U W
  auth_permission_guard meta args r =
      if meta.is_public
      then (returned true, r)
      else authenticate_and_permit meta args (bearer_token r.context.authorization) r
