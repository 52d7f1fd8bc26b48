-- ===== src/Auth/Accounts.antt =====
-- The other methods of apps/core/src/auth/auth.service.ts: the second factor, the refresh of a token,
-- and passwords; with verifyToken of two-factor.service.ts.
use plus_api.Common.{
  ◌+◌, String, Bool, true, false, ◌||◌, Option, none, some, str_eq, if◌then◌else◌,
}
use plus_api.Common.Result.{Error, Async, pure, throw, try_catch, ok, ◌>>=◌, ◌>>◌}
use plus_api.Registration.Username.{before_at}
use plus_api.Users.Types.{
  User, no_input, new_password, reset_password_to, nothing, two_factor_on, two_factor_off, listed,
  access,
}
use plus_api.Users.{find_by_id, find_by_email, create, update}
use plus_api.Auth.{
  LoginResponse, TwoFactorSetup, AuthClient, unauthorized, bad_request, invalid_credentials,
  no_account, already_enabled, invalid_refresh, is_locked, is_suspended, minutes, keys_of, found_or,
  dated, finish_login,
}

-- `TwoFactorService.verifyToken`, a placeholder
unfoldable pub verify_token : {W : Type 0} → String → String → Async W Bool
verify_token user_id token = pure false

abbrev pub not_set_up : Error
not_set_up =
    bad_request "Two-factor authentication setup not initiated. Call setupTwoFactor first."
      "TWO_FA_SETUP_NOT_INITIATED"

abbrev pub reset_token : String
reset_token = "temp-reset-token"

module _ {W : Type 0} (client : AuthClient W) where
  abbrev judge_token : User → Option String → Bool → Async W LoginResponse
  judge_token user ip true = finish_login client user ip
  judge_token user ip false = throw (unauthorized "Invalid 2FA token" "TWO_FA_INVALID_TOKEN")

  unfoldable pub verify_two_factor : String → String → Option String → Async W LoginResponse
  verify_two_factor user_id token ip = do
    found ← find_by_id client.users user_id
    user ← found_or client invalid_credentials found
    valid ← verify_token user.id token
    judge_token user ip valid

  abbrev refreshed : String → User → Async W LoginResponse
  refreshed token user w = (
    ok (record {
      access_token =
          client.users.sign
            (record {
              user_id = user.id;
              email = some user.email;
              roles = listed (keys_of (some user));
            })
            access w;
      refresh_token = token;
      user_id = user.id;
      user = user;
      requires_two_factor = false;
    }),
    w,
  )

  -- the `userId` of a verified token
  abbrev verified : String → Async W String
  verified token w = (client.verify token w, w)

  unfoldable pub refresh_token : String → Async W LoginResponse
  refresh_token token =
      try_catch
        (verified token
          >>= find_by_id client.users
          >>= found_or client invalid_refresh
          >>= refreshed token)
        pure (λ e. throw invalid_refresh)

  unfoldable pub change_password : String → String → String → Async W (Unit {0})
  change_password user_id current new = do
    found ← find_by_id client.users user_id
    user ← found_or client no_account found
    valid ← client.compare current user.password
    (if valid
        then pure tt
        else throw (unauthorized "Current password is incorrect" "AUTH_CURRENT_PASSWORD_INCORRECT"))
    hashed ← client.hash new
    client.users.update_user user_id (new_password hashed)
    pure tt

  abbrev issue_reset : Option User → Async W (Unit {0})
  issue_reset none = pure tt
  issue_reset (some user) =
      dated client (λ t. update client.users user.id (record no_input {
        password_reset_token = some reset_token;
        password_reset_expires = some (t + minutes 60);
      }))
      >> pure tt

  unfoldable pub request_password_reset : String → Async W (Unit {0})
  request_password_reset email = find_by_email client.users email >>= issue_reset

  unfoldable pub reset_password : String → String → Async W (Unit {0})
  reset_password token new = do
    found ← dated client (client.find_by_reset_token token)
    user ←
        found_or client
          (bad_request "Invalid or expired reset token" "TOKEN_INVALID_OR_EXPIRED_RESET") found
    hashed ← client.hash new
    client.users.update_user user.id (reset_password_to hashed)
    pure tt

  abbrev qr_coded : String × String → Async W TwoFactorSetup
  qr_coded (secret, address) = client.qr_code address >>= λ url. λ w. (
    ok (record {
      qr_code_url = url;
      secret = secret;
      backup_codes = client.generate_backup_codes w;
    }),
    w,
  )

  -- The secret is not stored.
  unfoldable pub setup_two_factor : String → Async W TwoFactorSetup
  setup_two_factor user_id = do
    found ← find_by_id client.users user_id
    user ← found_or client no_account found
    (if user.two_factor_enabled then throw already_enabled else pure tt)
    setup ← λ w. qr_coded (client.generate_secret user.email w) w
    client.users.update_user user_id nothing
    pure setup

  -- `if (!user.twoFactorSecret) throw …`
  abbrev secret_of : Option String → Async W String
  secret_of none = throw not_set_up
  secret_of (some secret) = if str_eq secret "" then throw not_set_up else pure secret

  unfoldable pub enable_two_factor : String → String → Async W Bool
  enable_two_factor user_id token = do
    found ← find_by_id client.users user_id
    user ← found_or client no_account found
    (if user.two_factor_enabled then throw already_enabled else pure tt)
    secret ← secret_of user.two_factor_secret
    (λ w.
        (if client.verify_totp token secret w
            then pure tt
            else throw (bad_request "Invalid verification token" "TOKEN_INVALID_VERIFICATION"))
          w)
    client.users.update_user user_id two_factor_on
    pure true

  unfoldable pub disable_two_factor : String → String → Async W Bool
  disable_two_factor user_id password = do
    found ← find_by_id client.users user_id
    user ← found_or client no_account found
    (if user.two_factor_enabled
        then pure tt
        else throw (bad_request "Two-factor authentication is not enabled" "TWO_FA_NOT_ENABLED"))
    valid ← client.compare password user.password
    (if valid then pure tt else throw (unauthorized "Invalid password" "AUTH_INVALID_PASSWORD"))
    client.users.update_user user_id two_factor_off
    pure true

  pub validate_user_by_id : String → Async W (Option User)
  validate_user_by_id user_id = find_by_id client.users user_id

  -- the user with that password, unless the account is locked or suspended
  abbrev usable : User → Bool → Option User
  usable user valid =
      if valid
      then (if is_locked user.status || is_suspended user.status then none else some user)
      else none

  abbrev checked_user : String → Option User → Async W (Option User)
  checked_user password none = pure none
  checked_user password (some user) =
      client.compare password user.password >>= λ valid. pure (usable user valid)

  unfoldable pub validate_user : String → String → Async W (Option User)
  validate_user email password =
      try_catch (find_by_email client.users email >>= checked_user password) pure (λ e. pure none)

  abbrev google_user : String → Option String → Option String → Option User → Async W User
  google_user email first last (some user) = pure user
  google_user email first last none = create client.users (record {
    email = email;
    password = "";
    first_name = first;
    last_name = last;
    username = some (before_at email);
    phone = none;
    status = some "ACTIVE";
    login_method = some "GOOGLE";
  })

  pub validate_google_user : String → Option String → Option String → Async W User
  validate_google_user email first last =
      find_by_email client.users email >>= google_user email first last
