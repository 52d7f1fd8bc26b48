-- ===== src/Auth/Admission.antt =====
-- Whom a login lets in, and how it fails.
use plus_api.Common.{
  String, ◌≡◌, ◌⊎◌, ◌∙◌, refl, ap, inl, inr, Bool, true, false, Option, none, some, Bool-cases,
}
use plus_api.Common.Result.{
  Result, ok, err, Error, ErrorClass, Result-cases, Returns, Returns-bind, Returns-mono, Returns-ok,
  pure, throw, try_catch, ◌>>=◌,
}
use plus_api.Users.Types.{User}
use plus_api.Users.{find_by_id, find_by_email}
use plus_api.Auth.{
  LoginResponse, AuthClient, bad_request, is_locked, is_suspended, is_after, with_tokens,
  generate_tokens, handle_failed_login, invalid_credentials, reset_failures, record_login,
  finish_login, second_factor, welcome, judge_password, check_account, rethrown, login_failed,
  login,
}

module _ {W : Type 0} (client : AuthClient W) where
  -- A response for the user: if it asks for the second factor, it has no tokens.
  abbrev pub IsFor : User → LoginResponse → Type 0
  IsFor user r =
      (r.user_id ≡ user.id)
      × ((user.two_factor_enabled ≡ false)
          ⊎ ((r.access_token ≡ "") × (r.refresh_token ≡ "") × (r.requires_two_factor ≡ true)))

  -- The account may log in with the password, checked in the world `w`.
  abbrev pub MayLogIn : String → User → W → Type 0
  MayLogIn password user w =
      (is_locked user.status ≡ false)
      × (is_suspended user.status ≡ false)
      × (is_after user.lockout_expires (client.users.now w) ≡ false)
      × ((client.compare password user.password w).0 ≡ ok true)

  abbrev pub IsRefusal : Error → Type 0
  IsRefusal e =
      (e.class ≡ ErrorClass.unauthorized) ⊎ (e ≡ bad_request "Login failed" "AUTH_LOGIN_FAILED")

  -- What a login may settle with, where `w` is the world in which it starts.
  abbrev pub Settles : String → String → W → Result LoginResponse → Type 0
  Settles email password w (err e) = IsRefusal e
  Settles email password w (ok r) =
      (user : User) × ((client.users.load_by_email email w).0 ≡ ok (some user))
      × MayLogIn password user (client.users.load_by_email email w).1
      × IsFor user r

  generate_tokens-IsFor :
      (user : User) (w : W) → Returns (λ r. r.user_id ≡ user.id) (generate_tokens client user w).0
  unfolding generate_tokens
  generate_tokens-IsFor user w =
      Returns-bind (λ r. r.user_id ≡ user.id) (find_by_id client.users user.id)
        (with_tokens client user) w (λ found is. refl)

  finish_login-IsFor :
      (user : User) (ip : Option String) (w : W)
      → Returns (λ r. r.user_id ≡ user.id) (finish_login client user ip w).0
  finish_login-IsFor user ip w =
      Returns-bind (λ r. r.user_id ≡ user.id) (record_login client user ip)
        (λ done. generate_tokens client user) w (λ done is. generate_tokens-IsFor user _)

  second_factor-IsFor :
      (user : User) (ip : Option String) (b : Bool) (w : W)
      → user.two_factor_enabled ≡ b
      → Returns (IsFor user) (second_factor client user ip b w).0
  second_factor-IsFor user ip true w is = (refl, inr (refl, refl, refl))
  second_factor-IsFor user ip false w is =
      Returns-mono (λ r. r.user_id ≡ user.id) (IsFor user) (finish_login client user ip w).0
        (λ r same. (same, inl is)) (finish_login-IsFor user ip w)

  welcome-IsFor :
      (user : User) (ip : Option String) (w : W) → Returns (IsFor user) (welcome client user ip w).0
  welcome-IsFor user ip w =
      Returns-bind (IsFor user) (reset_failures client user)
        (λ done. second_factor client user ip user.two_factor_enabled) w
        (λ done is. second_factor-IsFor user ip user.two_factor_enabled _ refl)

  judge_password-IsFor :
      (user : User) (ip : Option String) (valid : Bool) (w : W)
      → Returns (λ r. (valid ≡ true) × IsFor user r) (judge_password client user ip valid w).0
  judge_password-IsFor user ip true w =
      Returns-mono (IsFor user) (λ r. ◌≡◌ {A = Bool} true true × IsFor user r)
        (welcome client user ip w).0 (λ r is. (refl, is)) (welcome-IsFor user ip w)
  judge_password-IsFor user ip false w =
      Returns-bind (λ r. ◌≡◌ {A = Bool} false true × IsFor user r) (handle_failed_login client user)
        (λ done. throw invalid_credentials) w (λ done is. tt)

  -- what a password that fits has shown
  abbrev Fits : String → User → W → LoginResponse → Type 0
  Fits password user w r = ((client.compare password user.password w).0 ≡ ok true) × IsFor user r

  compare-Fits :
      (password : String) (ip : Option String) (user : User) (w : W)
      → Returns
          (Fits password user w)
          ((client.compare password user.password >>= judge_password client user ip) w).0
  compare-Fits password ip user w =
      Returns-bind (Fits password user w) (client.compare password user.password)
        (judge_password client user ip) w
        (λ valid is.
          Returns-mono (λ r. (valid ≡ true) × IsFor user r) (Fits password user w)
            (judge_password client user ip valid _).0 (λ r h. (is ∙ ap ok h.0, h.1))
            (judge_password-IsFor user ip valid _))

  check_account-MayLogIn :
      (password : String) (ip : Option String) (user : User) (w : W)
      → Returns
          (λ r. MayLogIn password user w × IsFor user r)
          (check_account client password ip (some user) w).0
  unfolding check_account
  check_account-MayLogIn password ip user w = elim (Bool-cases (is_locked user.status)) [
    | inl locked ↦ simp locked tt
    | inr unlocked ↦ elim (Bool-cases (is_suspended user.status)) [
      | inl suspended ↦ simp (unlocked, suspended) tt
      | inr free ↦ elim (Bool-cases (is_after user.lockout_expires (client.users.now w))) [
        | inl out ↦ simp (unlocked, free, out) tt
        | inr open_again ↦
            simp (unlocked, free, open_again)
              (Returns-mono (Fits password user w) _ _ (λ r h. ((refl, refl, refl, h.0), h.1))
                (compare-Fits password ip user w))
      ]
    ]
  ]

  rethrown-IsRefusal :
      (email password : String) (e : Error) (c : ErrorClass) (w w' : W)
      → e.class ≡ c
      → Settles email password w (rethrown client e c w').0
  rethrown-IsRefusal email password e ErrorClass.unauthorized w w' is = inl is
  rethrown-IsRefusal email password e ErrorClass.plain w w' is = inr refl
  rethrown-IsRefusal email password e ErrorClass.graphql w w' is = inr refl
  rethrown-IsRefusal email password e ErrorClass.bad_request w w' is = inr refl
  rethrown-IsRefusal email password e ErrorClass.not_found w w' is = inr refl

  found-Settles :
      (email password : String) (ip : Option String) (found : Option User) (w : W)
      → let (r, w1) = client.users.load_by_email email w in
        r ≡ ok found
        → Settles email password w
            (try_catch (check_account client password ip found) pure (login_failed client) w1).0
  unfolding check_account
  found-Settles email password ip none w is = inl refl
  found-Settles email password ip (some user) w is =
      let w1 = (client.users.load_by_email email w).1 in
      let outcome = check_account client password ip (some user) w1 in
      let may = check_account-MayLogIn password ip user w1 in
      elim (Result-cases outcome.0) [
        | inl (r, done) ↦ rw done (
            let h =
              Returns-ok (λ x. MayLogIn password user w1 × IsFor user x) outcome.0 r done may in
            (user, is, h.0, h.1))
        | inr (e, failed) ↦ rw failed (rethrown-IsRefusal email password e e.class w outcome.1 refl)
      ]

  -- A login that returns has found an account with this e-mail that is neither locked nor suspended,
  -- and not locked out now, and the password fits it; the response is that user's, and has no
  -- tokens where it asks for the second factor, as it does of every user who has one. A login that
  -- throws is unauthorized, or throws "Login failed".
  pub login-Settles :
      (email password : String) (ip : Option String) (w : W)
      → Settles email password w (login client email password ip w).0
  unfolding login find_by_email
  login-Settles email password ip w =
      let w1 = (client.users.load_by_email email w).1 in
      elim (Result-cases (client.users.load_by_email email w).0) [
        | inl (found, is) ↦
            let shape : login client email password ip w
                ≡ try_catch (check_account client password ip found) pure (login_failed client) w1 =
              rw is refl in
            rw shape (found-Settles email password ip found w is)
        | inr (e, is) ↦
            let shape : login client email password ip w ≡ login_failed client e w1 = rw is refl in
            rw shape (rethrown-IsRefusal email password e e.class w w1 refl)
      ]
