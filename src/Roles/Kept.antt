-- ===== src/Roles/Kept.antt =====
-- Which roles `deleteRole` leaves.
use plus_api.Common.{
  String, ◌≡◌, ◌∙◌, refl, sym, ap, inl, inr, true, false, Option, none, some, str_eq, eq_iff,
  eq_refl, arith, Bool-cases,
}
use plus_api.Common.Dict.{Dict, lookup, erase, lookup-erase}
use plus_api.Common.Result.{Result, ok, err, Result-cases}
use plus_api.Roles.{Role, RoleClient, delete_found, delete_role}

-- A role is not both a system role and none.
one_row : (r s : Role) → r.is_system_role ≡ false → s.is_system_role ≡ true → some r ≡ some s → ⊥
one_row r s own system same = ground (arith, same)

module _ {W : Type 0} (client : RoleClient W) (roles : W → Dict Role) where
  -- A deletion that returns has removed the role, and one that throws has changed nothing.
  abbrev pub Deletes : String → Dict Role → Result Role → Dict Role → Type 0
  Deletes key before (ok r) after = after ≡ erase key before
  Deletes key before (err e) after = after ≡ before

  pub record HoldsRoles : Type 0 where
    pub finds : (key : String) (w : W) → client.find_role key w ≡ (ok (lookup key (roles w)), w)
    pub deletes :
        (key : String) (w : W)
        → Deletes key (roles w) (client.delete_role key w).0 (roles (client.delete_role key w).1)

  -- What a call of `deleteRole` has shown by how it settled.
  abbrev pub Spares : String → Dict Role → Result Role → Dict Role → Type 0
  Spares key before (ok r) after =
      (lookup key after ≡ none)
      × ((held : Role) × (lookup key before ≡ some held) × (held.is_system_role ≡ false))
  Spares key before (err e) after = after ≡ before

  module _ (store : HoldsRoles) where
    delete_found-Spares :
        (key : String) (found : Option Role) (w : W)
        → lookup key (roles w) ≡ found
        → let (result, w') = delete_found client key found w in
          Spares key (roles w) result (roles w')
          × ((j : String) (r : Role)
              → lookup j (roles w) ≡ some r
              → r.is_system_role ≡ true
              → lookup j (roles w') ≡ some r)
    unfolding delete_found
    delete_found-Spares key none w is = (refl, (λ j r held system. held))
    delete_found-Spares key (some r) w is = elim (Bool-cases r.is_system_role) [
      | inl system ↦ rw system (refl, (λ j r held system. held))
      | inr own ↦ rw own (elim (Result-cases (client.delete_role key w).0) [
        | inl (gone, done) ↦
            let erased = rw done at (store.deletes key w) in
            rw done (
              (
                ap (lookup key) erased ∙ lookup-erase key key (roles w) ∙ rw (eq_refl key) refl,
                (r, is, own),
              ),
              (λ j s held system. elim (Bool-cases (str_eq key j)) [
                | inl same ↦
                    let here = ap (λ k. lookup k (roles w)) ((eq_iff key j).0 same) in
                    absurd (one_row r s own system (sym is ∙ here ∙ held))
                | inr other ↦ ap (lookup j) erased ∙ lookup-erase key j (roles w) ∙ rw other held
              ]),
            )
        | inr (e, failed) ↦
            let same = rw failed at (store.deletes key w) in
            rw failed (same, (λ j s held system. ap (lookup j) same ∙ held))
      ])
    ]

    -- A role that `deleteRole` has deleted was there, was no system role, and is gone; where it throws,
    -- all roles are as before; and whatever it is called with, every system role is there afterwards.
    pub delete_role-Spares :
        (key : String) (w : W)
        → let (result, w') = delete_role client key w in
          Spares key (roles w) result (roles w')
          × ((j : String) (r : Role)
              → lookup j (roles w) ≡ some r
              → r.is_system_role ≡ true
              → lookup j (roles w') ≡ some r)
    unfolding delete_role
    delete_role-Spares key w =
        rw (store.finds key w) (delete_found-Spares key (lookup key (roles w)) w refl)
