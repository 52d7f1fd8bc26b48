-- ===== src/Roles/Tests.antt =====
-- A user with an editor's and an inactive administrator's role, and a system role that stays.
use mathlib.Core.Option
use plus_api.Common.{
  String, ◌≡◌, refl, Bool, true, false, Option, none, some, List, [], ◌∷◌, map, str_eq,
}
use plus_api.Common.Int.{pos}
use plus_api.Common.Dict.{Dict, lookup, erase}
use plus_api.Common.Result.{ok, err, new_error}
use plus_api.Roles.{
  Permission, Role, RoleClient, every, any, user_has_permission, user_has_permissions,
  user_has_any_permission, get_user_permissions, delete_role,
}
use plus_api.Roles.Checks.{user_meets, active_roles, has_key, checks-get_user_permissions}
use plus_api.Roles.Kept.{Spares, delete_role-Spares}

abbrev permission : String → String → String → Permission
permission key resource action = record {
  key = key;
  status = "ACTIVE";
  resource = resource;
  action = action;
}

abbrev editor : Role
editor = record {
  key = "editor";
  status = "ACTIVE";
  level = pos 10;
  is_system_role = false;
  permissions =
      permission "post:create" "post" "create" ∷ permission "post:update" "post" "update" ∷ [];
}

abbrev admin : Role
admin = record {
  key = "admin";
  status = "INACTIVE";
  level = pos 100;
  is_system_role = true;
  permissions = permission "user:delete" "user" "delete" ∷ [];
}

abbrev Rows : Type 0
Rows = Dict Role

abbrev held_by : Rows → String → Option (List Role)
held_by w id = if_user (str_eq id "u1")
  where
    if_user : Bool → Option (List Role)
    if_user true = some (editor ∷ admin ∷ [])
    if_user false = none

abbrev client : RoleClient Rows
client = record {
  has_user_with = λ id t w. (ok (user_meets t (held_by w id)), w);
  find_active = λ id w. (ok (Option.map active_roles (held_by w id)), w);
  find_by_level = λ id w. (ok none, w);
  find_role = λ key w. (ok (lookup key w), w);
  create_role = λ r w. (err (new_error "read only"), w);
  delete_role = λ key w. (ok editor, erase key w);
  connect_permissions = λ key ks w. (err (new_error "read only"), w);
}

abbrev rows : Rows
rows = ("admin", admin) ∷ ("editor", editor) ∷ []

checks-get_user_permissions_example :
    (ps : List Permission) × (get_user_permissions client "u1" rows ≡ (ok ps, rows))
    × ((k : String) → user_has_permission client "u1" k rows ≡ (ok (has_key k ps), rows))
    × ((ks : List String)
        → user_has_permissions client "u1" ks rows
          ≡ (ok (every (map (λ k. has_key k ps) ks)), rows))
    × ((ks : List String)
        → user_has_any_permission client "u1" ks rows
          ≡ (ok (any (map (λ k. has_key k ps) ks)), rows))
checks-get_user_permissions_example =
    checks-get_user_permissions client held_by
      (record { first = λ id t w. refl; unique = λ id w. refl }) "u1" rows

delete_role-Spares_example :
    let (result, after) = delete_role client "editor" rows in
    Spares client (λ w. w) "editor" rows result after
    × ((j : String) (r : Role)
        → lookup j rows ≡ some r
        → r.is_system_role ≡ true
        → lookup j after ≡ some r)
delete_role-Spares_example =
    delete_role-Spares client (λ w. w) (record { finds = λ key w. refl; deletes = λ key w. refl })
      "editor" rows
