-- ===== src/Authorization/Tests.antt =====
-- A request for a handler that requires a permission in an organization.
use plus_api.Common.{
  String, ◌≡◌, refl, none, some, true, false, if◌then◌else◌, ◌∷◌, [], str_eq, ◌&&◌, ℕ, suc,
}
use plus_api.Common.Dict.{lookup}
use plus_api.Authorization.{
  returned, thrown, unauthorized, Metadata, Arguments, Request, AuthServices, open_session,
  bearer_token, check_permissions, organization_of, auth_guard, permission_guard,
  auth_permission_guard,
}
use plus_api.Authorization.Combined.{in_turn, auth_permission_guard_lem}
use plus_api.Authorization.Safety.{IsAuthenticated, IsGranted, auth_permission_guard_safe}

-- One session `t1`, whose user may create in the organization `o1`; the world counts the calls.
abbrev services : AuthServices String String String ℕ
services = record {
  get_session = λ token w. (
    returned (
        if str_eq token "t1"
        then some (record { session = some "s1"; user = some "u1" })
        else none),
    suc w,
  );
  has_permission = λ token p org w. (
    returned (
        some (record {
          success = str_eq p "create" && elim org [ none ↦ false | some o ↦ str_eq o "o1" ];
          error = none;
        })),
    suc w,
  );
}

abbrev meta : Metadata String
meta = record { is_public = false; permissions = some "create"; organization_id = some "org" }

abbrev args : Arguments
args = record { direct = []; input = some (("org", "o1") ∷ []) }

abbrev with_header : String → Request String String ℕ
with_header header = record {
  context = record {
    authorization = some header;
    session = none;
    user = none;
    session_token = none;
    organization_id = none;
  };
  world = 0;
}

lets_through :
    (auth_permission_guard services meta args (with_header "Bearer t1")).0 ≡ returned true
unfolding auth_permission_guard bearer_token open_session check_permissions organization_of lookup
lets_through = refl

refuses :
    (auth_permission_guard services meta args (with_header "Bearer t2")).0
    ≡ thrown (unauthorized "Invalid or expired session")
unfolding auth_permission_guard bearer_token open_session
refuses = refl

auth_permission_guard_lem_example :
    auth_permission_guard services meta args (with_header "Bearer t1")
    ≡ in_turn
        (auth_guard services meta (with_header "Bearer t1"))
        (permission_guard services meta args)
auth_permission_guard_lem_example =
    auth_permission_guard_lem services meta args (with_header "Bearer t1")

auth_permission_guard_safe_example :
    let r = with_header "Bearer t1" in
    (token : String) × IsAuthenticated services r token
      (auth_permission_guard services meta args r).1
    × IsGranted services meta args token (open_session services token r).1 (some "create")
auth_permission_guard_safe_example =
    auth_permission_guard_safe services meta args (with_header "Bearer t1") refl lets_through
