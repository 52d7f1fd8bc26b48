-- ===== src/Users/Sample.antt =====
-- A user and a client for tests.
use plus_api.Common.{false, none, some, [], ◌∷◌}
use plus_api.Common.Result.{ok, err, new_error}
use plus_api.Users.Types.{UserStatus, LoginMethod, User, UserClient}
use plus_api.Users.Rows.{with_data}

abbrev pub sample_user : User
sample_user = record {
  id = "u1";
  email = "ann@example.org";
  username = "ann";
  password = "secret";
  phone = none;
  first_name = some "Ann";
  last_name = none;
  full_name = none;
  name = "Ann";
  avatar = none;
  date_of_birth = none;
  gender = none;
  address = none;
  status = UserStatus.active;
  login_method = LoginMethod.local;
  email_verified = false;
  phone_verified = false;
  two_factor_enabled = false;
  two_factor_secret = none;
  last_login = none;
  last_login_ip = none;
  failed_login_attempts = 0;
  lockout_expires = none;
  password_reset_token = none;
  password_reset_expires = none;
  deleted_at = none;
  updated_at = 0;
  roles = record { id = "r1"; key = "USER" } ∷ [];
}

-- what a client over a world does that holds one row, given how the world is read and written
abbrev pub sample_client : {W : Type 0} → (W → User) → (W → User → W) → UserClient W
sample_client user write = record {
  load_by_id = λ id w. (ok (some (user w)), w);
  load_by_email = λ email w. (ok (some (user w)), w);
  load_by_username = λ name w. (ok (some (user w)), w);
  find_unique = λ email w. (ok (some (user w)), w);
  find_first = λ contacts w. (ok (some (user w)), w);
  find_role = λ key w. (ok (some (record { id = "r1"; key = key })), w);
  create_user = λ new w. (err (new_error "full"), w);
  update_user = λ id d w. (ok (with_data d (user w)), write w (with_data d (user w)));
  publish = λ event source id w. (err (new_error "no broker"), w);
  hash_password = λ p w. (ok p, w);
  verify_password = λ p h w. (ok false, w);
  sign = λ c kind w. c.user_id;
  decode = λ token. none;
  redis_set = λ key ttl w. (ok tt, w);
  redis_get = λ key w. (ok none, w);
  now = λ w. 0;
  show_ℕ = λ n. "0";
}
