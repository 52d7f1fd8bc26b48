-- ===== src/Authorization/Safety.antt =====
-- What a request that a guard lets through has shown, and what a guard may throw.
use Prim.Native.String.{◌++◌ as concat}
use plus_api.Common.{
  String, ◌≡◌, ◌∙◌, sym, ap, refl, inl, inr, Option, none, some, true, false, Bool-cases, arith,
}
use mathlib.Core.Path.{subst}
use plus_api.Authorization.{
  Settled, returned, thrown, Metadata, Arguments, Context, Login, Verdict, Request, AuthServices,
  bearer_token, signed_in, keep_login, judge, catching, authentication_failed, permission_failed,
  open_session, check_permissions, organization_of, auth_permission_guard, then_permit, permit,
  authenticate_and_permit,
}
use plus_api.Authorization.Token.{bearer_token_lem}

module _ {S U P W : Type 0} (services : AuthServices S U P W) where
  -- The permission service has granted what the handler requires, if anything.
  abbrev pub IsGranted : Metadata P → Arguments → String → Request S U W → Option P → Type 0
  IsGranted meta args token r none = Unit
  IsGranted meta args token r (some required) =
      (v : Verdict) × ((services.has_permission token required (organization_of meta args r.context)
          r.world).0
        ≡ returned (some v))
      × (v.success ≡ true)

  -- The header carried a token with a session, which is now in the context.
  abbrev pub IsAuthenticated : Request S U W → String → Request S U W → Type 0
  IsAuthenticated r token r' =
      (login : Login S U) × (r.context.authorization ≡ some (concat "Bearer " token))
      × ((services.get_session token r.world).0 ≡ returned (some login))
      × (r'.context ≡ signed_in token login r.context)

  opened :
      (token : String) (c : Context S U) (answer : Settled (Option (Login S U)) × W)
      → (catching authentication_failed (keep_login token c answer)).0 ≡ returned tt
      → (login : Login S U) × (answer.0 ≡ returned (some login))
        × ((catching authentication_failed (keep_login token c answer)).1.context
            ≡ signed_in token login c)
  opened token c (returned (some login), w) h = (login, refl, refl)
  opened token c (returned none, w) h = ground arith
  opened token c (thrown e, w) h = ground arith

  granted :
      (c : Context S U) (answer : Settled (Option Verdict) × W)
      → (catching permission_failed (judge c answer)).0 ≡ returned true
      → (v : Verdict) × (answer.0 ≡ returned (some v))
        × (v.success ≡ true)
        × ((catching permission_failed (judge c answer)).1.context ≡ c)
  granted c (returned (some v), w) h = elim (Bool-cases v.success) [
    | inl success ↦ (v, refl, success, simp success refl)
    | inr failure ↦ ground arith
  ]
  granted c (returned none, w) h = ground arith
  granted c (thrown e, w) h = ground arith

  permitted :
      (meta : Metadata P) (args : Arguments) (token : String) (r : Request S U W)
      (required : Option P)
      → (permit services meta args required token r).0 ≡ returned true
      → IsGranted meta args token r required
        × ((permit services meta args required token r).1.context ≡ r.context)
  unfolding check_permissions
  permitted meta args token r none h = (tt, refl)
  permitted meta args token r (some required) h =
      let (v, answered, success, same) = granted r.context _ h in ((v, answered, success), same)

  passed :
      (meta : Metadata P) (args : Arguments) (token : String) (r : Request S U W)
      → r.context.authorization ≡ some (concat "Bearer " token)
      → (opening : Settled (Unit {0}) × Request S U W) → opening ≡ open_session services token r
      → (then_permit services meta args token opening).0 ≡ returned true
      → IsAuthenticated r token (then_permit services meta args token opening).1
        × IsGranted meta args token (open_session services token r).1 meta.permissions
  unfolding open_session
  passed meta args token r header (returned _, r') is h =
      let (login, answered, context) = opened token r.context _ (ap (λ p. p.0) (sym is)) in
      let (grant, same) = permitted meta args token r' meta.permissions h in
      (
        (login, header, answered, same ∙ ap (λ p. p.1.context) is ∙ context),
        subst
            (λ (p : Settled (Unit {0}) × Request S U W).
              IsGranted meta args token p.1 meta.permissions)
            is grant,
      )
  passed meta args token r header (thrown e, r') is h = ground arith

  found :
      (meta : Metadata P) (args : Arguments) (r : Request S U W) (carried : Option String)
      → bearer_token r.context.authorization ≡ carried
      → (authenticate_and_permit services meta args carried r).0 ≡ returned true
      → (token : String) × IsAuthenticated r token
          (authenticate_and_permit services meta args carried r).1
        × IsGranted meta args token (open_session services token r).1 meta.permissions
  found meta args r none is h = ground arith
  found meta args r (some token) is h =
      let (shown, grant) = passed meta args token r (bearer_token_lem _ token is) _ refl h in
      (token, shown, grant)

  auth_permission_guard_private :
      (meta : Metadata P) (args : Arguments) (r : Request S U W)
      → meta.is_public ≡ false
      → auth_permission_guard services meta args r
        ≡ authenticate_and_permit services meta args (bearer_token r.context.authorization) r
  unfolding auth_permission_guard
  auth_permission_guard_private meta args r private = simp private refl

  -- On a handler that is not public, the combined guard lets a request through only if its header
  -- is `Bearer ` and a token, the authentication service has a session for this token, this session
  -- is now in the context, and the permission service has granted what the handler requires.
  pub auth_permission_guard_safe :
      (meta : Metadata P) (args : Arguments) (r : Request S U W)
      → meta.is_public ≡ false
      → (auth_permission_guard services meta args r).0 ≡ returned true
      → (token : String) × IsAuthenticated r token (auth_permission_guard services meta args r).1
        × IsGranted meta args token (open_session services token r).1 meta.permissions
  auth_permission_guard_safe meta args r private h =
      let is = auth_permission_guard_private meta args r private in
      let (token, (login, header, answered, context), grant) =
        found meta args r _ refl (ap (λ p. p.0) (sym is) ∙ h) in
      (token, (login, header, answered, ap (λ p. p.1.context) is ∙ context), grant)
