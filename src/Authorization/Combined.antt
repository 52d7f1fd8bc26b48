-- ===== src/Authorization/Combined.antt =====
-- The combined guard against the two single ones.
use plus_api.Common.{
  String, ◌≡◌, refl, inl, inr, Option, none, some, Bool, true, false, if◌then◌else◌, Bool-cases,
  Option-cases, arith,
}
use plus_api.Authorization.{
  Settled, returned, thrown, Metadata, Arguments, Context, Login, Request, AuthServices,
  bearer_token, token_of, signed_in, keep_login, catching, authentication_failed, open_session,
  allowed, then_permit, permit, require_permissions, auth_guard, permission_guard,
  auth_permission_guard,
}

-- one guard, and the next one if it lets the request through
abbrev pub in_turn :
    {S U W : Type 0}
    → Settled Bool × Request S U W
    → (Request S U W → Settled Bool × Request S U W)
    → Settled Bool × Request S U W
in_turn (returned true, r) next = next r
in_turn (returned false, r) next = (returned false, r)
in_turn (thrown e, r) next = (thrown e, r)

token_of-signed_in :
    {S U : Type 0} (token : String) (login : Login S U) (c : Context S U)
    → bearer_token c.authorization ≡ some token
    → token_of (signed_in token login c) ≡ some token
unfolding token_of
token_of-signed_in token login c h = ground arith

module _ {S U P W : Type 0} (services : AuthServices S U P W) where
  permit_lem :
      (meta : Metadata P) (args : Arguments) (token : String) (r : Request S U W)
      (required : Option P)
      → token_of r.context ≡ some token
      → permit services meta args required token r
        ≡ require_permissions services meta args required r
  permit_lem meta args token r none h = refl
  permit_lem meta args token r (some required) h = rw h refl

  session_lem :
      (meta : Metadata P) (args : Arguments) (token : String) (c : Context S U)
      (answer : Settled (Option (Login S U)) × W)
      → bearer_token c.authorization ≡ some token
      → let opened = catching authentication_failed (keep_login token c answer) in
        then_permit services meta args token opened
        ≡ in_turn (allowed opened) (permission_guard services meta args)
  unfolding permission_guard
  session_lem meta args token c (returned (some login), w) h =
      permit_lem meta args token _ meta.permissions (token_of-signed_in token login c h)
  session_lem meta args token c (returned none, w) h = refl
  session_lem meta args token c (thrown e, w) h = refl

  -- The combined guard does what the two single guards do in turn, on every request to a handler
  -- that is not public; a public handler it lets through, whatever permissions it declares.
  pub auth_permission_guard_lem :
      (meta : Metadata P) (args : Arguments) (r : Request S U W)
      → auth_permission_guard services meta args r ≡ (
          if meta.is_public
          then (returned true, r)
          else in_turn (auth_guard services meta r) (permission_guard services meta args))
  unfolding auth_permission_guard auth_guard open_session
  auth_permission_guard_lem meta args r = elim (Bool-cases meta.is_public) [
    | inl public ↦ simp public refl
    | inr other ↦ simp other (elim (Option-cases (bearer_token r.context.authorization)) [
      | inl absent ↦ rw absent refl
      | inr present ↦ rw present.1 (session_lem meta args present.0 r.context _ present.1)
    ])
  ]
