-- ===== src/Roles/Grouped.antt =====
-- A user's actions by resource, against the list of his permissions.
use mathlib.Core.List.{append_assoc, append-nil}
use plus_api.Common.{
  String, ◌≡◌, ◌∙◌, refl, sym, ap, inl, inr, List, [], ◌∷◌, ◌++◌, map, str_eq, Bool-cases,
}
use plus_api.Common.Lists.{keep}
use plus_api.Common.Dict.{Dict, lookup}
use plus_api.Common.Dict.Multi.{list_or_empty, push_at, lookup-push_at}
use plus_api.Common.Result.{Result, ok, err, Result-cases}
use plus_api.Roles.{
  Permission, RoleClient, group_actions, get_user_permissions, get_user_permissions_by_resource,
}

-- the actions on a resource, in the order of the permissions
abbrev pub actions_on : String → List Permission → List String
actions_on resource ps = map (λ p. p.action) (keep (λ p. str_eq p.resource resource) ps)

lookup-group_actions :
    (k : String) (m : Dict (List String)) (ps : List Permission)
    → list_or_empty (lookup k (group_actions m ps)) ≡ list_or_empty (lookup k m) ++ actions_on k ps
unfolding group_actions keep
lookup-group_actions k m [] = sym (append-nil _)
lookup-group_actions k m (p ∷ ps) =
    lookup-group_actions k (push_at p.resource p.action m) ps
    ∙ ap (λ l. l ++ actions_on k ps) (lookup-push_at p.resource k p.action m)
    ∙ elim (Bool-cases (str_eq p.resource k)) [
      | inl same ↦ rw same (append_assoc (list_or_empty (lookup k m)) (p.action ∷ []) _)
      | inr other ↦ rw other (rw (append-nil (list_or_empty (lookup k m))) refl)
    ]

-- How the grouped actions stand to the list.
abbrev pub IsGrouping : Result (List Permission) → Result (Dict (List String)) → Type 0
IsGrouping (ok ps) (ok m) = (k : String) → list_or_empty (lookup k m) ≡ actions_on k ps
IsGrouping (err e) (err f) = f ≡ e
IsGrouping _ _ = ⊥

module _ {W : Type 0} (client : RoleClient W) where
  -- Where `getUserPermissions` returns a list, `getUserPermissionsByResource` returns an object that has
  -- under each resource the actions of the permissions on it, in the list's order, and nothing under
  -- a resource without permissions; where the one throws, the other throws the same.
  pub get_user_permissions_by_resource-IsGrouping :
      (id : String) (w : W)
      → IsGrouping
          (get_user_permissions client id w).0
          (get_user_permissions_by_resource client id w).0
  unfolding get_user_permissions_by_resource lookup
  get_user_permissions_by_resource-IsGrouping id w =
      elim (Result-cases (get_user_permissions client id w).0) [
        | inl (ps, is) ↦ rw is (λ k. lookup-group_actions k [] ps)
        | inr (e, is) ↦ rw is refl
      ]
