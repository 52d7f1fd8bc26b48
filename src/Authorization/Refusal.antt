-- ===== src/Authorization/Refusal.antt =====
-- What the guards throw.
use plus_api.Common.{String, ◌≡◌, refl, inl, inr, Option, none, some, Bool, true, Bool-cases}
use plus_api.Authorization.{
  Settled, returned, thrown, Exception, unauthorized, forbidden, error, other, Metadata, Arguments,
  Context, Login, Verdict, Request, AuthServices, keep_login, judge, catching,
  authentication_failed, permission_failed, open_session, check_permissions, auth_guard,
  permission_guard, allowed, authenticate, authorize, require_permissions,
}

abbrev pub IsUnauthorized : Exception → Type 0
IsUnauthorized (unauthorized m) = Unit
IsUnauthorized _ = ⊥

abbrev pub IsForbidden : Exception → Type 0
IsForbidden (forbidden m) = Unit
IsForbidden _ = ⊥

-- The guard returned `true`, or threw an exception of the given class.
abbrev pub TrueOr : (Exception → Type 0) → Settled Bool → Type 0
TrueOr IsExpected (returned b) = b ≡ true
TrueOr IsExpected (thrown e) = IsExpected e

module _ {S U W : Type 0} where
  allowed-TrueOr :
      (token : String) (c : Context S U) (answer : Settled (Option (Login S U)) × W)
      → TrueOr IsUnauthorized
          (allowed (catching authentication_failed (keep_login token c answer))).0
  allowed-TrueOr token c (returned (some login), w) = refl
  allowed-TrueOr token c (returned none, w) = tt
  allowed-TrueOr token c (thrown (unauthorized m), w) = tt
  allowed-TrueOr token c (thrown (forbidden m), w) = tt
  allowed-TrueOr token c (thrown (error m), w) = tt
  allowed-TrueOr token c (thrown other, w) = tt

  judge-TrueOr :
      (c : Context S U) (answer : Settled (Option Verdict) × W)
      → TrueOr IsForbidden (catching permission_failed (judge c answer)).0
  judge-TrueOr c (returned (some v), w) = elim (Bool-cases v.success) [
    | inl success ↦ simp success refl
    | inr failure ↦ simp failure tt
  ]
  judge-TrueOr c (returned none, w) = tt
  judge-TrueOr c (thrown (unauthorized m), w) = tt
  judge-TrueOr c (thrown (forbidden m), w) = tt
  judge-TrueOr c (thrown (error m), w) = tt
  judge-TrueOr c (thrown other, w) = tt

module _ {S U P W : Type 0} (services : AuthServices S U P W) where
  authenticate-TrueOr :
      (carried : Option String) (r : Request S U W)
      → TrueOr IsUnauthorized (authenticate services carried r).0
  unfolding open_session
  authenticate-TrueOr none r = tt
  authenticate-TrueOr (some token) r = allowed-TrueOr token r.context _

  require-TrueOr :
      (meta : Metadata P) (args : Arguments) (required : P) (carried : Option String)
      (r : Request S U W)
      → TrueOr IsForbidden (authorize services meta args required carried r).0
  unfolding check_permissions
  require-TrueOr meta args required none r = tt
  require-TrueOr meta args required (some token) r = judge-TrueOr r.context _

  required-TrueOr :
      (meta : Metadata P) (args : Arguments) (required : Option P) (r : Request S U W)
      → TrueOr IsForbidden (require_permissions services meta args required r).0
  required-TrueOr meta args none r = refl
  required-TrueOr meta args (some required) r = require-TrueOr meta args required _ r

  -- Whatever the services answer or throw, AuthGuard returns `true` or throws an
  -- UnauthorizedException, and PermissionGuard returns `true` or throws a ForbiddenException.
  pub guards-TrueOr :
      (meta : Metadata P) (args : Arguments) (r : Request S U W)
      → TrueOr IsUnauthorized (auth_guard services meta r).0
        × TrueOr IsForbidden (permission_guard services meta args r).0
  unfolding auth_guard permission_guard
  guards-TrueOr meta args r = (
    elim (Bool-cases meta.is_public) [
      | inl public ↦ simp public refl
      | inr private ↦ simp private (authenticate-TrueOr _ r)
    ],
    required-TrueOr meta args meta.permissions r,
  )
