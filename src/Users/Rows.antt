-- ===== src/Users/Rows.antt =====
-- What an update of a user's row means, by Prisma's documentation: a column that is undefined stays.
use plus_api.Common.{ℕ, String, true, false, Option, none, some}
use plus_api.Users.Types.{
  User, UpdateUserInput, UserData, changes, deletion, new_password, reset_password_to, nothing,
  two_factor_on, two_factor_off, connect_role, disconnect_role, Gender,
}

abbrev pub or_old : {A : Type 0} → Option A → A → A
or_old none old = old
or_old (some a) old = a

abbrev pub or_old? : {A : Type 0} → Option A → Option A → Option A
or_old? none old = old
or_old? (some a) old = some a

abbrev pub with_changes : UpdateUserInput → Option Gender → Option String → ℕ → User → User
with_changes i gender full_name now u = record u {
  first_name = or_old? i.first_name u.first_name;
  last_name = or_old? i.last_name u.last_name;
  full_name = or_old? full_name u.full_name;
  avatar = or_old? i.avatar u.avatar;
  date_of_birth = or_old? i.date_of_birth u.date_of_birth;
  gender = or_old? gender u.gender;
  address = or_old? i.address u.address;
  phone = or_old? i.phone u.phone;
  status = or_old i.status u.status;
  email_verified = or_old i.email_verified u.email_verified;
  phone_verified = or_old i.phone_verified u.phone_verified;
  two_factor_enabled = or_old i.two_factor_enabled u.two_factor_enabled;
  last_login = or_old? i.last_login u.last_login;
  last_login_ip = or_old? i.last_login_ip u.last_login_ip;
  failed_login_attempts = or_old i.failed_login_attempts u.failed_login_attempts;
  lockout_expires = or_old? i.lockout_expires u.lockout_expires;
  password_reset_token = or_old? i.password_reset_token u.password_reset_token;
  password_reset_expires = or_old? i.password_reset_expires u.password_reset_expires;
  updated_at = now;
}

-- The roles are a relation of their own, and are left as they are here.
abbrev pub with_data : UserData → User → User
with_data (changes i gender full_name now) u = with_changes i gender full_name now u
with_data (deletion now email username) u = record u {
  deleted_at = some now;
  email = email;
  username = username;
}
with_data (new_password p) u = record u { password = p }
with_data (reset_password_to p) u = record u { password = p }
with_data nothing u = u
with_data two_factor_on u = record u { two_factor_enabled = true }
with_data two_factor_off u = record u { two_factor_enabled = false; two_factor_secret = none }
with_data (connect_role id) u = u
with_data (disconnect_role id) u = u
