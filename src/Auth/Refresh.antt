-- ===== src/Auth/Refresh.antt =====
-- The tokens that a login gives, and the second factor.
use plus_api.Common.{
  ℕ, ◌+◌, ◌<◌, String, ◌≡◌, ◌∙◌, refl, sym, ap, inl, inr, Bool, true, false, Option, none, some,
  Option-cases,
}
use plus_api.Common.Result.{Result, ok, err, Error, Result-cases}
use plus_api.Users.Types.{User, Claims, no_claim, listed, access, refresh}
use plus_api.Users.{find_by_id}
use plus_api.Auth.{
  LoginResponse, AuthClient, unauthorized, invalid_credentials, keys_of, generate_tokens, login,
}
use plus_api.Auth.Accounts.{verify_token, verify_two_factor, refresh_token}
use plus_api.Auth.Admission.{login-Settles}

abbrev second_of : Result (Option User) → Bool
second_of (ok (some u)) = u.two_factor_enabled
second_of other = false

abbrev token_of : Result LoginResponse → String
token_of (ok r) = r.refresh_token
token_of (err e) = ""

no_bool : ◌≡◌ {A = Bool} true false → ⊥
no_bool h = cc h

module _ {W : Type 0} (client : AuthClient W) where
  -- A refresh token is good for so many milliseconds: its payload is then read.
  pub record Verifies (life : ℕ) : Type 0 where
    pub reads :
        (c : Claims) (w v : W)
        → client.users.now v < client.users.now w + life
        → client.verify (client.users.sign c refresh w) v ≡ ok c.user_id

  generated :
      (user : User) (w : W) (r : LoginResponse)
      → (generate_tokens client user w).0 ≡ ok r
      → r.refresh_token
        ≡ client.users.sign
            (record { user_id = user.id; email = none; roles = no_claim })
            refresh
            (generate_tokens client user w).1
  unfolding generate_tokens find_by_id
  generated user w r is = elim (Result-cases (client.users.load_by_id user.id w).0) [
    | inl (found, loaded) ↦ let same = rw loaded at is in rw loaded (sym (ap token_of same))
    | inr (e, failed) ↦ let never = rw failed at is in cc
  ]

  -- The refresh token that a user is given is good for as long as it lives: while the user is found, it
  -- gives an access token for that user, with the roles the user has then, and itself again.
  pub refresh_token-generate_tokens :
      (life : ℕ) (user found : User) (w v : W) (r : LoginResponse)
      → Verifies life
      → (generate_tokens client user w).0 ≡ ok r
      → client.users.now v < client.users.now (generate_tokens client user w).1 + life
      → (client.users.load_by_id user.id v).0 ≡ ok (some found)
      → (refresh_token client r.refresh_token v).0
        ≡ ok (record {
          access_token =
              client.users.sign
                (record {
                  user_id = found.id;
                  email = some found.email;
                  roles = listed (keys_of (some found));
                })
                access
                (client.users.load_by_id user.id v).1;
          refresh_token = r.refresh_token;
          user_id = found.id;
          user = found;
          requires_two_factor = false;
        })
  unfolding refresh_token find_by_id
  refresh_token-generate_tokens life user found w v r verifies is early loaded =
      let token = generated user w r is in
      let reads =
        verifies.reads (record { user_id = user.id; email = none; roles = no_claim })
          (generate_tokens client user w).1 v early in
      let good : client.verify r.refresh_token v ≡ ok user.id =
        ap (λ t. client.verify t v) token ∙ reads in
      rw good (rw loaded refl)

  verify_two_factor_throws :
      (user_id token : String) (ip : Option String) (w : W)
      → (e : Error) × ((verify_two_factor client user_id token ip w).0 ≡ err e)
  unfolding verify_two_factor find_by_id verify_token
  verify_two_factor_throws user_id token ip w =
      elim (Result-cases (client.users.load_by_id user_id w).0) [
        | inl (found, loaded) ↦ elim (Option-cases found) [
          | inl gone ↦ (invalid_credentials, rw (loaded, gone) refl)
          | inr (user, there) ↦
              (unauthorized "Invalid 2FA token" "TWO_FA_INVALID_TOKEN", rw (loaded, there) refl)
        ]
        | inr (e, failed) ↦ (e, rw failed refl)
      ]

  -- No token comes of signing in with a second factor: where the account that `login` has loaded asks
  -- for one, a login that returns has given no access token and no refresh token, and then
  -- `verifyTwoFactor` for the user that it names throws, whatever token it is called with. What
  -- `refreshToken` and the login of the users service give is not said.
  pub two_factor-HasNoToken :
      (email password : String) (ip : Option String) (user : User) (w : W) (r : LoginResponse)
      → (client.users.load_by_email email w).0 ≡ ok (some user)
      → user.two_factor_enabled ≡ true
      → (login client email password ip w).0 ≡ ok r
      → (r.access_token ≡ "")
        × (r.refresh_token ≡ "")
        × ((token : String) (v : W)
            → (e : Error) × ((verify_two_factor client r.user_id token ip v).0 ≡ err e))
  two_factor-HasNoToken email password ip user w r loaded second is =
      let (u, found, may, (same, factor)) = rw is at (login-Settles client email password ip w) in
      elim factor [
        | inl single ↦
            absurd (no_bool (sym second ∙ ap (λ x. second_of x) (sym loaded ∙ found) ∙ single))
        | inr (no_access, no_refresh, asked) ↦
            (no_access, no_refresh, (λ token v. verify_two_factor_throws r.user_id token ip v))
      ]
