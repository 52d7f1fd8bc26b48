-- ===== src/Users.antt =====
-- The service of the users: apps/core/src/users/users.service.ts, but for login and logout. Calls of
-- other libraries are the fields of `UserClient`. Log output is left out.
pub mod Types
pub mod Tokens
pub mod Rows
pub mod Blacklist
pub mod Sample
mod Tests
use Prim.Native.String.{◌++◌ as concat}
use plus_api.Common.{
  ℕ, String, Bool, true, false, not, ◌&&◌, ◌||◌, Option, none, some, List, [], ◌∷◌, ◌++◌, str_eq,
  if◌then◌else◌,
}
use plus_api.Common.Text.{is_truthy, or_else, or_text}
use plus_api.Common.Result.{Error, ErrorClass, error_of, Async, pure, throw, try_catch, ◌>>=◌, ◌>>◌}
use plus_api.Registration.Username.{before_at}
use Types.{
  UserStatus, LoginMethod, Gender, Role, User, CreateUserInput, RegisterUserInput, UpdateUserInput,
  no_input, NewUser, UserData, changes, deletion, connect_role, disconnect_role, UserEvent, created,
  updated, deleted, Contact, email_is, phone_is, username_is, UserClient,
}

-- `UserStatusEnum[…]`, `LoginMethod[…]` and `GenderEnum[…]`
unfoldable pub status_of : String → Option UserStatus
status_of s =
    if str_eq s "ACTIVE"
    then some UserStatus.active
    else if str_eq s "INACTIVE"
    then some UserStatus.inactive
    else if str_eq s "SUSPENDED"
    then some UserStatus.suspended
    else if str_eq s "LOCKED"
    then some UserStatus.locked
    else if str_eq s "PENDING_VERIFICATION"
    then some UserStatus.pending_verification
    else if str_eq s "ARCHIVED"
    then some UserStatus.archived
    else none

unfoldable pub login_method_of : String → Option LoginMethod
login_method_of s =
    if str_eq s "LOCAL"
    then some LoginMethod.local
    else if str_eq s "GOOGLE"
    then some LoginMethod.google
    else if str_eq s "FACEBOOK"
    then some LoginMethod.facebook
    else if str_eq s "MICROSOFT"
    then some LoginMethod.microsoft
    else if str_eq s "APPLE"
    then some LoginMethod.apple
    else if str_eq s "SSO"
    then some LoginMethod.sso
    else none

unfoldable pub gender_of : String → Option Gender
gender_of s =
    if str_eq s "MALE"
    then some Gender.male
    else if str_eq s "FEMALE"
    then some Gender.female
    else if str_eq s "OTHER"
    then some Gender.other
    else if str_eq s "PREFER_NOT_TO_SAY"
    then some Gender.prefer_not_to_say
    else none

-- `text ? f(text) : d`
abbrev pub looked_up : {A : Type 0} → Option String → (String → Option A) → Option A → Option A
looked_up none f d = d
looked_up (some s) f d = if str_eq s "" then d else f s

-- `${firstName} ${lastName}` if both are there, and else `d`
abbrev pub full_name_or : Option String → Option String → Option String → Option String
full_name_or (some first) (some last) d =
    if not (str_eq first "") && not (str_eq last "")
    then some (concat first (concat " " last))
    else d
full_name_or (some first) none d = d
full_name_or none last d = d

abbrev pub no_user : Error
no_user = error_of ErrorClass.not_found "User not found" "USER_NOT_FOUND"

-- the conditions of `checkUserExists`, without those on `undefined`
abbrev pub given : (String → Contact) → Option String → List Contact
given c none = []
given c (some s) = c s ∷ []

abbrev pub is_some : {A : Type 0} → Option A → Bool
is_some none = false
is_some (some a) = true

module _ {W : Type 0} (client : UserClient W) where
  -- a `publish` whose errors are caught and logged
  abbrev pub published : UserEvent → String → String → Async W (Unit {0})
  published event source user_id =
      try_catch (client.publish event source (concat "user-" user_id)) pure (λ e. pure tt)

  unfoldable pub find_by_id : String → Async W (Option User)
  find_by_id id = client.load_by_id id

  unfoldable pub find_by_email : String → Async W (Option User)
  find_by_email email = client.load_by_email email

  pub find_by_username : String → Async W (Option User)
  find_by_username username = client.load_by_username username

  -- `if (!user) throw …`
  unfoldable pub required : Error → Option User → Async W User
  required e none = throw e
  required e (some user) = pure user

  pub find_user_by_id : String → Async W User
  unfolding find_by_id required
  find_user_by_id id =
      find_by_id id >>= required (error_of ErrorClass.graphql "User not found." "USER_NOT_FOUND")

  -- `if (existingUser) throw …`
  abbrev pub free_email : Option User → Async W (Unit {0})
  free_email none = pure tt
  free_email (some user) = throw (
      error_of ErrorClass.graphql "Email already exists. Please use a different email."
        "EMAIL_EXISTS")

  -- the two texts are passed in the other order than elsewhere
  abbrev pub required_role : Option Role → Async W Role
  required_role (some r) = pure r
  required_role none = throw (error_of ErrorClass.graphql "ROLE_NOT_FOUND" "Role not found.")

  unfoldable pub register : RegisterUserInput → Async W User
  register input = do
    found ← client.find_unique input.email
    free_email found
    hashed ← client.hash_password input.password
    found_role ← client.find_role "USER"
    role ← required_role found_role
    user ← client.create_user (record {
      email = input.email;
      username = before_at input.email;
      password = hashed;
      name =
          or_text (or_else input.first_name input.last_name)
            (or_text (some (before_at input.email)) input.email);
      first_name = none;
      last_name = none;
      full_name = none;
      phone = none;
      status = none;
      login_method = none;
      role_id = some role.id;
    })
    published (created user) "user-registration" user.id
    pure user

  unfoldable pub create : CreateUserInput → Async W User
  create input = do
    user ← client.create_user (record {
      email = input.email;
      username = or_text input.username (before_at input.email);
      password = input.password;
      name = or_text (or_else input.first_name input.last_name) input.email;
      first_name = input.first_name;
      last_name = input.last_name;
      full_name =
          full_name_or input.first_name input.last_name (or_else input.first_name input.last_name);
      phone = input.phone;
      status = looked_up input.status status_of (some UserStatus.pending_verification);
      login_method = looked_up input.login_method login_method_of (some LoginMethod.local);
      role_id = none;
    })
    published (created user) "user-management" user.id
    pure user

  unfoldable pub update : String → UpdateUserInput → Async W User
  unfolding find_by_id required
  update id input = do
    found ← find_by_id id
    existing ← required no_user found
    user ← λ w.
        client.update_user id
          (changes input (looked_up input.gender gender_of none)
            (full_name_or input.first_name input.last_name input.full_name) (client.now w))
          w
    published (updated user existing) "user-management" user.id
    pure user

  -- the two `Date.now()` and the two `new Date()` are read at one time each
  unfoldable pub delete : String → Async W Bool
  unfolding find_by_id required
  delete id = do
    found ← find_by_id id
    existing ← required no_user found
    λ w.
        client.update_user id
          (deletion (client.now w)
            (concat existing.email (concat "_deleted_" (client.show_ℕ (client.now w))))
            (concat existing.username (concat "_deleted_" (client.show_ℕ (client.now w)))))
          w
    λ w. published (deleted existing (client.now w)) "user-management" existing.id w
    pure true

  pub assign_role : String → String → Async W User
  unfolding find_by_id required
  assign_role user_id role_id = find_by_id user_id >>= required no_user >>= λ user.
      client.update_user user_id (connect_role role_id)

  pub remove_role : String → String → Async W User
  unfolding find_by_id required
  remove_role user_id role_id = find_by_id user_id >>= required no_user >>= λ user.
      client.update_user user_id (disconnect_role role_id)

  unfoldable pub check_user_exists : Option String → Option String → Option String → Async W Bool
  check_user_exists email phone username =
      if is_truthy email || is_truthy phone || is_truthy username
      then (client.find_first
            (given email_is email ++ given phone_is phone ++ given username_is username)
          >>= λ user. pure (is_some user))
      else pure false

  pub verify_email : String → Async W User
  verify_email id = update id (record no_input { email_verified = some true })

  pub verify_phone : String → Async W User
  verify_phone id = update id (record no_input { phone_verified = some true })

  pub enable_two_factor : String → Async W User
  enable_two_factor id = update id (record no_input { two_factor_enabled = some true })

  pub disable_two_factor : String → Async W User
  disable_two_factor id = update id (record no_input { two_factor_enabled = some false })
