-- ===== src/Roles.antt =====
-- The roles and permissions of users: apps/core/src/permissions/role-permission.service.ts. The queries
-- of Prisma are parameters. A text compared with "ACTIVE" is a status, and a plain object is a `Dict`.
pub mod Checks
pub mod Grouped
pub mod Kept
mod Tests
use plus_api.Common.{
  ℕ, String, Bool, true, false, ◌&&◌, ◌||◌, Option, none, some, List, [], ◌∷◌, ◌++◌, map, str_eq,
  if◌then◌else◌,
}
use plus_api.Common.Int.{ℤ, pos, leb_ℤ}
use plus_api.Common.Dict.{Dict, lookup, insert}
use plus_api.Common.Dict.Multi.{push_at}
use plus_api.Common.Result.{Async, coded_error, pure, throw, ◌>>=◌}

pub record Permission : Type 0 where
  pub key : String
  pub status : String
  pub resource : String
  pub action : String

pub record Role : Type 0 where
  pub key : String
  pub status : String
  pub level : ℤ
  pub is_system_role : Bool
  pub permissions : List Permission

-- what a `findFirst` asks of some active role of the user
pub data RoleTest : Type 0 where
  key_is : String → RoleTest
  key_in : List String → RoleTest
  has_active_permission : String → RoleTest

-- the calls of Prisma
pub record RoleClient (W : Type 0) : Type 0 where
  pub has_user_with : String → RoleTest → Async W Bool  -- `findFirst(…) !== null`
  pub find_active : String → Async W (Option (List Role))  -- active roles, active permissions
  pub find_by_level : String → Async W (Option (List Role))  -- active roles, the highest level first
  pub find_role : String → Async W (Option Role)
  pub create_role : Role → Async W Role
  pub delete_role : String → Async W Role
  pub connect_permissions : String → List String → Async W Role

-- `[...].every((has) => has)` and `[...].some((has) => has)`
unfoldable pub every : List Bool → Bool
every [] = true
every (b ∷ bs) = b && every bs

unfoldable pub any : List Bool → Bool
any [] = false
any (b ∷ bs) = b || any bs

-- `map.values()`
abbrev pub values : {V : Type 0} → Dict V → List V
values m = map (λ e. e.1) m

-- the two loops that fill the map
unfoldable pub add_permissions : Dict Permission → List Permission → Dict Permission
add_permissions m [] = m
add_permissions m (p ∷ ps) = add_permissions (insert p.key p m) ps

unfoldable pub add_roles : Dict Permission → List Role → Dict Permission
add_roles m [] = m
add_roles m (r ∷ rs) = add_roles (add_permissions m r.permissions) rs

-- `if (!grouped[resource]) grouped[resource] = []`, and the push
unfoldable pub group_actions : Dict (List String) → List Permission → Dict (List String)
group_actions m [] = m
group_actions m (p ∷ ps) = group_actions (push_at p.resource p.action m) ps

abbrev pub roles_or_empty : Option (List Role) → List Role
roles_or_empty none = []
roles_or_empty (some rs) = rs

-- `Math.max(...levels, 0)`
unfoldable pub max_level : List Role → ℤ
max_level [] = pos 0
max_level (r ∷ rs) = let m = max_level rs in if leb_ℤ m r.level then r.level else m

-- `user === null ? [] : …`
abbrev pub permissions_of : Option (List Role) → List Permission
permissions_of none = []
permissions_of (some rs) = values (add_roles [] rs)

-- what `createRole` is called with
pub record NewRole : Type 0 where
  pub key : String
  pub level : ℤ
  pub is_system_role : Option Bool
  pub permission_keys : Option (List String)

-- `isSystemRole ?? false`
abbrev pub or_false : Option Bool → Bool
or_false none = false
or_false (some b) = b

module _ {W : Type 0} (client : RoleClient W) where
  unfoldable pub user_has_permission : String → String → Async W Bool
  user_has_permission user_id key = client.has_user_with user_id (has_active_permission key)

  -- `Promise.all(permissionKeys.map((key) => this.userHasPermission(userId, key)))`
  unfoldable pub check_each : String → List String → Async W (List Bool)
  check_each user_id [] = pure []
  check_each user_id (k ∷ ks) =
      user_has_permission user_id k >>= λ has. check_each user_id ks >>= λ rest. pure (has ∷ rest)

  unfoldable pub user_has_permissions : String → List String → Async W Bool
  user_has_permissions user_id keys = check_each user_id keys >>= λ results. pure (every results)

  unfoldable pub user_has_any_permission : String → List String → Async W Bool
  user_has_any_permission user_id keys = check_each user_id keys >>= λ results. pure (any results)

  unfoldable pub get_user_permissions : String → Async W (List Permission)
  get_user_permissions user_id = client.find_active user_id >>= λ found. pure (permissions_of found)

  unfoldable pub get_user_permissions_by_resource : String → Async W (Dict (List String))
  get_user_permissions_by_resource user_id =
      get_user_permissions user_id >>= λ ps. pure (group_actions [] ps)

  unfoldable pub get_user_roles : String → Async W (List Role)
  get_user_roles user_id = client.find_by_level user_id >>= λ found. pure (roles_or_empty found)

  unfoldable pub get_user_max_role_level : String → Async W ℤ
  get_user_max_role_level user_id = get_user_roles user_id >>= λ rs. pure (max_level rs)

  unfoldable pub user_has_role : String → String → Async W Bool
  user_has_role user_id key = client.has_user_with user_id (key_is key)

  unfoldable pub user_has_any_role : String → List String → Async W Bool
  user_has_any_role user_id keys = client.has_user_with user_id (key_in keys)

  -- `if (permissionKeys && permissionKeys.length > 0)`
  add_given : Role → Option (List String) → Async W Role
  add_given r none = pure r
  add_given r (some []) = pure r
  add_given r (some (k ∷ ks)) = client.connect_permissions r.key (k ∷ ks) >>= λ _. pure r

  pub create_role : NewRole → Async W Role
  unfolding add_given
  create_role new =
      client.create_role (record {
        key = new.key;
        status = "ACTIVE";
        level = new.level;
        is_system_role = or_false new.is_system_role;
        permissions = [];
      })
      >>= λ r. add_given r new.permission_keys

  -- what `deleteRole` does with the role that it has found
  delete_found : String → Option Role → Async W Role
  delete_found key none = throw (coded_error "Role not found" "ROLE_NOT_FOUND")
  delete_found key (some r) =
      if r.is_system_role
      then throw (coded_error "Cannot delete system role" "ROLE_CANNOT_DELETE_SYSTEM_ROLE")
      else client.delete_role key

  unfoldable pub delete_role : String → Async W Role
  unfolding delete_found
  delete_role key = client.find_role key >>= delete_found key
