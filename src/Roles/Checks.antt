-- ===== src/Roles/Checks.antt =====
-- The checks of permissions against the list of a user's permissions.
use mathlib.Core.Option
use plus_api.Common.{
  String, ◌≡◌, ◌∙◌, refl, sym, ap, inl, inr, Bool, false, ◌&&◌, ◌||◌, Option, none, some, List, [],
  ◌∷◌, map, str_eq, eq_iff, arith, Bool-cases,
}
use plus_api.Common.Lists.{keep, member}
use plus_api.Common.Dict.{Dict, insert}
use plus_api.Common.Result.{ok, settle, pure, throw, ◌>>=◌}
use plus_api.Roles.{
  Permission, Role, RoleTest, key_is, key_in, has_active_permission, RoleClient, every, any, values,
  add_permissions, add_roles, permissions_of, user_has_permission, check_each, user_has_permissions,
  user_has_any_permission, get_user_permissions,
}

abbrev pub is_active : String → Bool
is_active status = str_eq status "ACTIVE"

-- Some permission in the list has the key and is active.
unfoldable pub grants : String → List Permission → Bool
grants k [] = false
grants k (p ∷ ps) = (str_eq p.key k && is_active p.status) || grants k ps

abbrev pub meets : RoleTest → Role → Bool
meets (key_is k) r = str_eq r.key k
meets (key_in ks) r = member r.key ks
meets (has_active_permission k) r = grants k r.permissions

-- Some role in the list is active and meets the test.
unfoldable pub some_active : RoleTest → List Role → Bool
some_active t [] = false
some_active t (r ∷ rs) = (is_active r.status && meets t r) || some_active t rs

abbrev pub with_active_permissions : Role → Role
with_active_permissions r = record r { permissions = keep (λ p. is_active p.status) r.permissions }

-- The roles as the query includes them.
abbrev pub active_roles : List Role → List Role
active_roles rs = map with_active_permissions (keep (λ r. is_active r.status) rs)

abbrev pub user_meets : RoleTest → Option (List Role) → Bool
user_meets t none = false
user_meets t (some rs) = some_active t rs

module _ {W : Type 0} (client : RoleClient W) (roles : W → String → Option (List Role)) where
  -- The two queries read the same roles of a user and change nothing.
  pub record ReadsRoles : Type 0 where
    pub first :
        (id : String) (t : RoleTest) (w : W)
        → client.has_user_with id t w ≡ (ok (user_meets t (roles w id)), w)
    pub unique :
        (id : String) (w : W)
        → client.find_active id w ≡ (ok (Option.map active_roles (roles w id)), w)

-- The list has a permission with the key.
abbrev pub has_key : String → List Permission → Bool
has_key k ps = member k (map (λ p. p.key) ps)

abbrev held : String → Dict Permission → Bool
held k m = has_key k (values m)

-- Each permission stands under its own key.
abbrev IsKeyed : Dict Permission → Type 0
IsKeyed [] = Unit
IsKeyed ((j, p) ∷ m) = (j ≡ p.key) × IsKeyed m

insert-IsKeyed : (p : Permission) (m : Dict Permission) → IsKeyed m → IsKeyed (insert p.key p m)
unfolding insert
insert-IsKeyed p [] h = (refl, tt)
insert-IsKeyed p ((j, q) ∷ m) h = ground (arith, insert-IsKeyed p m h.1)

held-insert :
    (k : String) (p : Permission) (m : Dict Permission)
    → IsKeyed m
    → held k (insert p.key p m) ≡ (held k m || str_eq p.key k)
unfolding insert member
held-insert k p [] h = ground arith
held-insert k p ((j, q) ∷ m) h =
    ground (arith, held-insert k p m h.1, eq_iff j p.key, eq_iff q.key k, eq_iff p.key k)

add_permissions-IsKeyed :
    (m : Dict Permission) (ps : List Permission) → IsKeyed m → IsKeyed (add_permissions m ps)
unfolding add_permissions
add_permissions-IsKeyed m [] h = h
add_permissions-IsKeyed m (p ∷ ps) h =
    add_permissions-IsKeyed (insert p.key p m) ps (insert-IsKeyed p m h)

held-add_permissions :
    (k : String) (m : Dict Permission) (ps : List Permission)
    → IsKeyed m
    → held k (add_permissions m ps) ≡ (held k m || has_key k ps)
unfolding add_permissions member
held-add_permissions k m [] h = ground arith
held-add_permissions k m (p ∷ ps) h = ground (
  arith,
  held-add_permissions k (insert p.key p m) ps (insert-IsKeyed p m h),
  held-insert k p m h,
)

unfoldable in_roles : String → List Role → Bool
in_roles k [] = false
in_roles k (r ∷ rs) = has_key k r.permissions || in_roles k rs

held-add_roles :
    (k : String) (m : Dict Permission) (rs : List Role)
    → IsKeyed m
    → held k (add_roles m rs) ≡ (held k m || in_roles k rs)
unfolding add_roles in_roles
held-add_roles k m [] h = ground arith
held-add_roles k m (r ∷ rs) h = ground (
  arith,
  held-add_roles k (add_permissions m r.permissions) rs (add_permissions-IsKeyed m r.permissions h),
  held-add_permissions k m r.permissions h,
)

has_key-keep :
    (k : String) (ps : List Permission)
    → has_key k (keep (λ p. is_active p.status) ps) ≡ grants k ps
unfolding keep member grants
has_key-keep k [] = refl
has_key-keep k (p ∷ ps) = ground (arith, has_key-keep k ps)

in_roles-active_roles :
    (k : String) (rs : List Role)
    → in_roles k (active_roles rs) ≡ some_active (has_active_permission k) rs
unfolding keep in_roles some_active
in_roles-active_roles k [] = refl
in_roles-active_roles k (r ∷ rs) = elim (Bool-cases (is_active r.status)) [
  | inl on ↦ rw on (
      ap (λ b. b || in_roles k (active_roles rs)) (has_key-keep k r.permissions)
      ∙ ap (λ b. grants k r.permissions || b) (in_roles-active_roles k rs))
  | inr off ↦ rw off (in_roles-active_roles k rs)
]

granted :
    (k : String) (row : Option (List Role))
    → has_key k (permissions_of (Option.map active_roles row))
      ≡ user_meets (has_active_permission k) row
unfolding member
granted k none = refl
granted k (some rs) = held-add_roles k [] (active_roles rs) tt ∙ in_roles-active_roles k rs

module _ {W : Type 0} (client : RoleClient W) (roles : W → String → Option (List Role))
    (reads : ReadsRoles client roles) (id : String) (w : W) where
  abbrev owned : List Permission
  owned = permissions_of (Option.map active_roles (roles w id))

  has_lem : (k : String) → user_has_permission client id k w ≡ (ok (has_key k owned), w)
  unfolding user_has_permission
  has_lem k =
      reads.first id (has_active_permission k) w
      ∙ ap (λ b. (ok b, w)) (sym (granted k (roles w id)))

  check_each_lem :
      (ks : List String) → check_each client id ks w ≡ (ok (map (λ k. has_key k owned) ks), w)
  unfolding check_each
  check_each_lem [] = refl
  check_each_lem (k ∷ ks) =
      ap (λ x. settle x.0 (λ has. check_each client id ks >>= λ rest. pure (has ∷ rest)) throw x.1)
        (has_lem k)
      ∙ ap (λ x. settle x.0 (λ rest. pure (has_key k owned ∷ rest)) throw x.1) (check_each_lem ks)

  -- If the queries read the same roles of a user, then `userHasPermission` says yes exactly of the
  -- keys in the list that `getUserPermissions` returns, `userHasPermissions` exactly if all of the
  -- keys are in it, and `userHasAnyPermission` exactly if some key is.
  pub checks-get_user_permissions :
      (ps : List Permission) × (get_user_permissions client id w ≡ (ok ps, w))
      × ((k : String) → user_has_permission client id k w ≡ (ok (has_key k ps), w))
      × ((ks : List String)
          → user_has_permissions client id ks w ≡ (ok (every (map (λ k. has_key k ps) ks)), w))
      × ((ks : List String)
          → user_has_any_permission client id ks w ≡ (ok (any (map (λ k. has_key k ps) ks)), w))
  unfolding get_user_permissions user_has_permissions user_has_any_permission
  checks-get_user_permissions = (
    owned,
    ap (λ x. settle x.0 (λ found. pure (permissions_of found)) throw x.1) (reads.unique id w),
    has_lem,
    (λ ks. ap (λ x. settle x.0 (λ results. pure (every results)) throw x.1) (check_each_lem ks)),
    (λ ks. ap (λ x. settle x.0 (λ results. pure (any results)) throw x.1) (check_each_lem ks)),
  )
