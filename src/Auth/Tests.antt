-- ===== src/Auth/Tests.antt =====
-- One account; the world is its row, and it is always time 0.
use plus_api.Common.{
  ◌+◌, ◌≤◌, String, ◌≡◌, ◌⊎◌, refl, Bool, true, false, none, some, [], ◌∷◌, str_eq, arith,
  if◌then◌else◌,
}
use plus_api.Common.Lists.{length}
use plus_api.Common.Result.{ok, err, Error}
use plus_api.Users.Types.{User}
use plus_api.Users.Sample.{sample_user, sample_client}
use plus_api.Users.{find_by_id, find_by_email}
use plus_api.Auth.{
  LoginResponse, AuthClient, minutes, invalid_credentials, generate_tokens, check_account, login,
}
use plus_api.Auth.Accounts.{request_password_reset, refresh_token, verify_two_factor}
use plus_api.Auth.Admission.{Settles, login-Settles}
use plus_api.Auth.Attempts.{IsAccount, attempts}
use plus_api.Auth.Stale.{login_never_locks_out}
use plus_api.Users.Types.{
  UserData, changes, deletion, new_password, reset_password_to, nothing, two_factor_on,
  two_factor_off, connect_role, disconnect_role,
}
use plus_api.Users.Rows.{with_data}
use plus_api.Common.{ℕ, List, Option, ap, sym, ◌∙◌, eq_iff, eq_refl, Bool-cases, inl, inr}
use plus_api.Auth.Reset.{meets, HoldsUsers, Resets, reset_all, reset_after_request}
use plus_api.Auth.Refresh.{Verifies, refresh_token-generate_tokens, two_factor-HasNoToken}
use plus_api.Common.{◌↔◌, ◌<◌}
use plus_api.Common.Lists.{member}
use plus_api.Common.Text.{Every}
use plus_api.Auth.Passwords.{
  utf16_length, too_short, no_lowercase, no_uppercase, no_number, no_special, IsLowercase,
  IsUppercase, IsDigit, IsSpecial, has_char, is_one_of, validate_password_strength,
  validate_password_strength_lem,
}

abbrev client : AuthClient User
client = record {
  users = sample_client (λ w. w) (λ w u. u);
  hash = λ p w. (ok p, w);
  compare = λ p h w. (ok (str_eq p h), w);
  verify = λ token w. ok token;
  find_by_reset_token = λ token now w. (ok (if meets w token now then some w else none), w);
  max_login_attempts = 2;
  verify_totp = λ token secret w. false;
  generate_secret = λ email w. ("s", "a");
  qr_code = λ address w. (ok "q", w);
  generate_backup_codes = λ w. [];
}

login-Settles_example :
    Settles client "ann@example.org" "secret" sample_user
      (login client "ann@example.org" "secret" none sample_user).0
login-Settles_example = login-Settles client "ann@example.org" "secret" none sample_user

-- the same with loaders that keep the user as it was first
abbrev stale_client : AuthClient User
stale_client = record client {
  users = record (sample_client (λ w. w) (λ w u. u)) {
    load_by_id = λ id w. (ok (some sample_user), w);
    load_by_email = λ email w. (ok (some sample_user), w);
  };
}

stale-IsAccount : IsAccount stale_client str_eq "ann@example.org" (λ w. w) (λ w. sample_user)
stale-IsAccount = record {
  loads = λ w. refl;
  loads_id = λ w v. (sample_user, refl);
  updates = λ d w v. (_, refl);
  writes = λ d w v. refl;
  publishes = λ event source id w. refl;
  compares = λ p h w. refl;
}

login_never_locks_out_example :
    let (r, w') =
      login stale_client "ann@example.org" "d" none
        (attempts stale_client str_eq "ann@example.org" none ("a" ∷ "b" ∷ "c" ∷ []) sample_user) in
    (r ≡ err invalid_credentials) × (w'.failed_login_attempts ≡ 1) × (w'.lockout_expires ≡ none)
login_never_locks_out_example =
    login_never_locks_out stale_client str_eq "ann@example.org" none (λ w. w) sample_user
      stale-IsAccount ("a" ∷ "b" ∷ "c" ∷ []) "d" sample_user (refl, refl, refl)
      (refl, (refl, (refl, tt))) refl (omega arith)

-- a database of one account; the loaders keep it as it was first
abbrev row : String → User → Option User
row id w = if str_eq w.id id then some w else none

abbrev reset_client : AuthClient User
reset_client = record client {
  users = record (sample_client (λ w. w) (λ w u. u)) {
    load_by_id = λ id w. (ok (some sample_user), w);
    load_by_email = λ email w. (ok (some sample_user), w);
    update_user = λ id d w. (ok w, if str_eq w.id id then with_data d w else w);
  };
}

abbrev user_or : User → Option User → User
user_or u none = u
user_or u (some v) = v

found_row : (id : String) (w u : User) → row id w ≡ some u → (str_eq w.id id ≡ true) × (w ≡ u)
found_row id w u there = elim (Bool-cases (str_eq w.id id)) [
  | inl same ↦ let is = rw same at there in (same, ap (user_or w) is)
  | inr other ↦ let never = rw other at there in cc
]

with_data-id : (d : UserData) (u : User) → (with_data d u).id ≡ u.id
with_data-id (changes i g n t) u = refl
with_data-id (deletion t e n) u = refl
with_data-id (new_password p) u = refl
with_data-id (reset_password_to p) u = refl
with_data-id nothing u = refl
with_data-id two_factor_on u = refl
with_data-id two_factor_off u = refl
with_data-id (connect_role r) u = refl
with_data-id (disconnect_role r) u = refl

row_written :
    (id : String) (d : UserData) (u w : User)
    → row id w ≡ some u
    → row id (if str_eq w.id id then with_data d w else w) ≡ some (with_data d u)
row_written id d u w there =
    let (same, is) = found_row id w u there in
    let still : str_eq (with_data d w).id id ≡ true =
      ap (λ x. str_eq x id) (with_data-id d w) ∙ same in
    rw same (rw still (ap (λ x. some (with_data d x)) is))

row_spared :
    (id k : String) (d : UserData) (w : User)
    → str_eq id k ≡ false
    → row k (if str_eq w.id id then with_data d w else w) ≡ row k w
row_spared id k d w differs = elim (Bool-cases (str_eq w.id id)) [
  | inr other ↦ rw other refl
  | inl same ↦
      let unlike : str_eq w.id k ≡ false =
        ap (λ x. str_eq x k) ((eq_iff w.id id).0 same) ∙ differs in
      let still : str_eq (with_data d w).id k ≡ false =
        ap (λ x. str_eq x k) (with_data-id d w) ∙ unlike in
      rw same (rw (still, unlike) refl)
]

found_by_token :
    (token : String) (now : ℕ) (w : User)
    → ((x : User) × (reset_client.find_by_reset_token token now w ≡ (ok (some x), w))
        × (row x.id w ≡ some x)
        × (meets x token now ≡ true))
      ⊎ ((reset_client.find_by_reset_token token now w ≡ (ok none, w))
          × ((id : String) (u : User) → row id w ≡ some u → meets u token now ≡ false))
found_by_token token now w = elim (Bool-cases (meets w token now)) [
  | inl good ↦ inl (w, rw good refl, rw (eq_refl w.id) refl, good)
  | inr not_good ↦ inr (
    rw not_good refl,
    (λ id u there. ap (λ x. meets x token now) (sym (found_row id w u there).1) ∙ not_good),
  )
]

holds_users : HoldsUsers reset_client (λ p. p) "ann@example.org" "u1" row (λ w. sample_user)
holds_users = record {
  loads = λ w. refl;
  identifies = λ w. refl;
  loads_id = λ w. (sample_user, refl);
  publishes = λ event source id k w. refl;
  updates = λ id d u w there. (w, refl, row_written id d u w there);
  spares = row_spared;
  finds = found_by_token;
  hashes = λ p w. refl;
}

reset_after_request_example :
    let (r, w1) = request_password_reset reset_client "ann@example.org" sample_user in
    (r ≡ ok tt)
    × ((ps : List String) (p : String)
        → Resets reset_client
            (λ p. p)
            "ann@example.org"
            "u1"
            row
            (λ w. sample_user)
            holds_users
            p
            (reset_all reset_client (λ p. p) ps w1)
          ⊎ (minutes 60 ≤ 0))
reset_after_request_example =
    reset_after_request reset_client (λ p. p) "ann@example.org" "u1" row (λ w. sample_user)
      holds_users sample_user sample_user refl

-- what the sample user is given
abbrev given : LoginResponse
given = record {
  access_token = "u1";
  refresh_token = "u1";
  user_id = "u1";
  user = sample_user;
  requires_two_factor = false;
}

verifies : Verifies client 1000
verifies = record { reads = λ c w v early. refl }

refresh_token-generate_tokens_example : (refresh_token client "u1" sample_user).0 ≡ ok given
unfolding generate_tokens find_by_id
refresh_token-generate_tokens_example =
    refresh_token-generate_tokens client 1000 sample_user sample_user sample_user sample_user given
      verifies refl (omega arith) refl

abbrev ann_with_factor : User
ann_with_factor = record sample_user { two_factor_enabled = true }

abbrev asked : LoginResponse
asked = record {
  access_token = "";
  refresh_token = "";
  user_id = "u1";
  user = ann_with_factor;
  requires_two_factor = true;
}

two_factor-HasNoToken_example :
    ◌≡◌ {A = String} asked.access_token ""
    × ◌≡◌ {A = String} asked.refresh_token ""
    × ((token : String) (v : User)
        → (e : Error) × ((verify_two_factor client asked.user_id token none v).0 ≡ err e))
unfolding login find_by_email check_account
two_factor-HasNoToken_example =
    two_factor-HasNoToken client "ann@example.org" "secret" none ann_with_factor ann_with_factor
      asked refl refl refl

-- four characters, one of each class
validate_password_strength_lem_example :
    let f = (validate_password_strength "aA1!").feedback in
    ((member too_short f ≡ true) ↔ (utf16_length "aA1!" < 8))
    × ((member no_lowercase f ≡ true) ↔ Every (λ c. IsLowercase c → ⊥) "aA1!")
    × ((member no_uppercase f ≡ true) ↔ Every (λ c. IsUppercase c → ⊥) "aA1!")
    × ((member no_number f ≡ true) ↔ Every (λ c. IsDigit c → ⊥) "aA1!")
    × ((member no_special f ≡ true) ↔ Every (λ c. IsSpecial c → ⊥) "aA1!")
    × ((validate_password_strength "aA1!").score + length f ≡ 5)
    × (◌≡◌ {A = Bool} (validate_password_strength "aA1!").is_valid true)
unfolding validate_password_strength has_char is_one_of utf16_length
validate_password_strength_lem_example = validate_password_strength_lem "aA1!"
