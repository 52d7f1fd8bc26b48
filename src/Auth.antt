-- ===== src/Auth.antt =====
-- Signing in: apps/core/src/auth/auth.service.ts over the service of the users, with two-factor.service.ts
-- and password.service.ts beside it. bcrypt, the JWT library, speakeasy and the QR codes are parameters,
-- and so are the settings. Log output is left out, and with it logFailedLogin and logSuccessfulLogin.
pub mod Accounts
pub mod Admission
pub mod Attempts
pub mod Stale
pub mod Reset
pub mod Refresh
pub mod Passwords
mod Tests
use plus_api.Common.{
  ℕ, ◌+◌, ◌*◌, String, Bool, true, false, Option, none, some, List, [], map, leb, ltb,
  if◌then◌else◌,
}
use plus_api.Common.Text.{is_truthy}
use plus_api.Common.Result.{
  Result, ok, err, Error, ErrorClass, error_of, Async, pure, throw, try_catch, ◌>>=◌, ◌>>◌,
}
use plus_api.Registration.Username.{before_at}
use plus_api.Users.Types.{
  UserStatus, Role, User, RegisterUserInput, no_input, new_password, reset_password_to, nothing,
  two_factor_on, two_factor_off, no_claim, listed, access, refresh, UserClient,
}
use plus_api.Users.{find_by_id, find_by_email, create, update}

pub record LoginResponse : Type 0 where
  pub access_token : String
  pub refresh_token : String
  pub user_id : String
  pub user : User
  pub requires_two_factor : Bool

pub record TwoFactorSetup : Type 0 where
  pub qr_code_url : String
  pub secret : String
  pub backup_codes : List String

pub record AuthClient (W : Type 0) : Type 0 where
  pub users : UserClient W
  pub hash : String → Async W String  -- `passwordService.hashPassword`
  pub compare : String → String → Async W Bool  -- `bcrypt.compare`
  pub verify : String → W → Result String  -- `jwtService.verify`, the `userId` of the payload
  pub find_by_reset_token : String → ℕ → Async W (Option User)  -- not expired at that time
  pub max_login_attempts : ℕ
  pub verify_totp : String → String → W → Bool  -- `speakeasy.totp.verify`, a token and a secret
  pub generate_secret : String → W → String × String  -- the secret and its address, of an e-mail
  pub qr_code : String → Async W String
  pub generate_backup_codes : W → List String

abbrev pub unauthorized : String → String → Error
unauthorized = error_of ErrorClass.unauthorized

abbrev pub bad_request : String → String → Error
bad_request = error_of ErrorClass.bad_request

abbrev pub invalid_credentials : Error
invalid_credentials = unauthorized "Invalid credentials" "AUTH_INVALID_CREDENTIALS"

abbrev pub locked_out : Error
locked_out =
    unauthorized "Account is temporarily locked due to failed attempts" "AUTH_ACCOUNT_LOCKED_OUT"

abbrev pub no_account : Error
no_account = unauthorized "User not found" "AUTH_USER_NOT_FOUND"

abbrev pub already_enabled : Error
already_enabled =
    bad_request "Two-factor authentication is already enabled" "TWO_FA_ALREADY_ENABLED"

abbrev pub invalid_refresh : Error
invalid_refresh = unauthorized "Invalid refresh token" "AUTHZ_INVALID_REFRESH_TOKEN"

-- `status === UserStatusEnum.LOCKED`, and `SUSPENDED`
abbrev pub is_locked : UserStatus → Bool
is_locked UserStatus.locked = true
is_locked other = false

abbrev pub is_suspended : UserStatus → Bool
is_suspended UserStatus.suspended = true
is_suspended other = false

-- `user.lockoutExpires && user.lockoutExpires > new Date()`
abbrev pub is_after : Option ℕ → ℕ → Bool
is_after none now = false
is_after (some t) now = ltb now t

-- `userWithRoles?.roles?.map(role => role.key) || []`
abbrev pub keys_of : Option User → List String
keys_of none = []
keys_of (some user) = map (λ r. r.key) user.roles

abbrev pub minutes : ℕ → ℕ
minutes n = n * 60000

module _ {W : Type 0} (client : AuthClient W) where
  abbrev now : W → ℕ
  now = client.users.now

  -- a date of now
  abbrev dated : {A : Type 0} → (ℕ → Async W A) → Async W A
  dated f w = f (now w) w

  abbrev with_tokens : User → Option User → Async W LoginResponse
  with_tokens user found w = (
    ok (record {
      access_token =
          client.users.sign
            (record { user_id = user.id; email = some user.email; roles = listed (keys_of found) })
            access w;
      refresh_token =
          client.users.sign (record { user_id = user.id; email = none; roles = no_claim }) refresh
            w;
      user_id = user.id;
      user = user;
      requires_two_factor = false;
    }),
    w,
  )

  unfoldable pub generate_tokens : User → Async W LoginResponse
  generate_tokens user = find_by_id client.users user.id >>= with_tokens user

  abbrev unless_found : Option User → Error → Async W (Unit {0})
  unless_found none e = pure tt
  unless_found (some user) e = throw e

  abbrev found_or : Error → Option User → Async W User
  found_or e none = throw e
  found_or e (some user) = pure user

  unfoldable pub register : RegisterUserInput → Async W LoginResponse
  register input = do
    found ← find_by_email client.users input.email
    unless_found found (record {
      class = ErrorClass.bad_request;
      message = "User with this email already exists";
      code = none;
    })
    hashed ← client.hash input.password
    user ← create client.users (record {
      email = input.email;
      password = hashed;
      first_name = none;
      last_name = none;
      username = some (before_at input.email);
      phone = none;
      status = some "PENDING_VERIFICATION";
      login_method = some "LOCAL";
    })
    generate_tokens user

  -- the date in `lockoutExpires`, if these are enough failures
  abbrev pub lockout_after : ℕ → ℕ → Option ℕ
  lockout_after attempts t =
      if leb client.max_login_attempts attempts then some (t + minutes 30) else none

  unfoldable pub handle_failed_login : User → Async W (Unit {0})
  handle_failed_login user = dated λ t.
      update client.users user.id (record no_input {
        failed_login_attempts = some (user.failed_login_attempts + 1);
        lockout_expires = lockout_after (user.failed_login_attempts + 1) t;
      })
      >> pure tt

  -- the failures are reset; `lockoutExpires: undefined` is no change
  abbrev reset_failures : User → Async W (Unit {0})
  reset_failures user =
      if ltb 0 user.failed_login_attempts
      then (update client.users user.id (record no_input { failed_login_attempts = some 0 })
          >> pure tt)
      else pure tt

  abbrev two_factor_required : User → LoginResponse
  two_factor_required user = record {
    access_token = "";
    refresh_token = "";
    user_id = user.id;
    user = user;
    requires_two_factor = true;
  }

  abbrev record_login : User → Option String → Async W User
  record_login user ip =
      dated λ t.
        update client.users user.id (record no_input { last_login = some t; last_login_ip = ip })

  -- the date of the login, and the tokens
  abbrev finish_login : User → Option String → Async W LoginResponse
  finish_login user ip = record_login user ip >> generate_tokens user

  -- whether the user has a second factor
  abbrev second_factor : User → Option String → Bool → Async W LoginResponse
  second_factor user ip true = pure (two_factor_required user)
  second_factor user ip false = finish_login user ip

  abbrev welcome : User → Option String → Async W LoginResponse
  welcome user ip = reset_failures user >> second_factor user ip user.two_factor_enabled

  abbrev judge_password : User → Option String → Bool → Async W LoginResponse
  judge_password user ip true = welcome user ip
  judge_password user ip false = handle_failed_login user >> throw invalid_credentials

  -- the checks of an account
  unfoldable pub check_account : String → Option String → Option User → Async W LoginResponse
  check_account password ip none = throw invalid_credentials
  check_account password ip (some user) = dated λ t.
      if is_locked user.status
      then throw (unauthorized "Account is locked" "AUTH_ACCOUNT_LOCKED")
      else if is_suspended user.status
      then throw (unauthorized "Account is suspended" "AUTH_ACCOUNT_SUSPENDED")
      else if is_after user.lockout_expires t
      then throw locked_out
      else (client.compare password user.password >>= judge_password user ip)

  -- the `catch`
  abbrev rethrown : Error → ErrorClass → Async W LoginResponse
  rethrown e ErrorClass.unauthorized = throw e
  rethrown e other = throw (bad_request "Login failed" "AUTH_LOGIN_FAILED")

  abbrev login_failed : Error → Async W LoginResponse
  login_failed e = rethrown e e.class

  unfoldable pub login : String → String → Option String → Async W LoginResponse
  login email password ip =
      try_catch (find_by_email client.users email >>= check_account password ip) pure login_failed
