-- ===== src/Auth/Attempts.antt =====
-- One account and the logins that fail on it.
use plus_api.Common.{
  ℕ, ◌+◌, ◌<◌, String, ◌≡◌, ◌∙◌, refl, inl, inr, Bool, true, false, Option, none, some, List, [],
  ◌∷◌, arith,
}
use plus_api.Common.Lists.{All}
use Prim.Native.String.{◌++◌ as concat}
use plus_api.Common.Result.{Result-cases, ok, err}
use plus_api.Users.Types.{User, UserEvent, updated, UserData, changes, UpdateUserInput, no_input}
use plus_api.Users.{
  find_by_id, find_by_email, required, published, update, looked_up, gender_of, full_name_or,
}
use plus_api.Users.Rows.{or_old?, with_data}
use plus_api.Auth.{
  AuthClient, is_locked, is_suspended, is_after, lockout_after, handle_failed_login,
  invalid_credentials, locked_out, check_account, login,
}

pub or_old?-none : {A : Type 0} (o : Option A) → or_old? o none ≡ o
or_old?-none none = refl
or_old?-none (some a) = refl

module _ {W : Type 0} (client : AuthClient W) where
  pub lockout_below : (n t : ℕ) → n < client.max_login_attempts → lockout_after client n t ≡ none
  lockout_below n t below = ground arith

module _ {W : Type 0} (client : AuthClient W) (fits : String → String → Bool) where
  -- `user` is the row of the account with the e-mail, `seen` what the loaders give for it: updates
  -- write the row, publishing and comparing passwords leave it alone.
  pub record IsAccount (email : String) (user seen : W → User) : Type 0 where
    pub loads : (w : W) → client.users.load_by_email email w ≡ (ok (some (seen w)), w)
    pub loads_id :
        (w v : W) → (x : User) × (client.users.load_by_id (seen v).id w ≡ (ok (some x), w))
    pub updates :
        (d : UserData) (w v : W)
        → (x : User) × ((client.users.update_user (seen v).id d w).0 ≡ ok x)
    pub writes :
        (d : UserData) (w v : W)
        → user (client.users.update_user (seen v).id d w).1 ≡ with_data d (user w)
    pub publishes :
        (event : UserEvent) (source id : String) (w : W)
        → user (client.users.publish event source id w).1 ≡ user w
    pub compares : (p h : String) (w : W) → client.compare p h w ≡ (ok (fits p h), w)

  -- Nothing but a password stands between the account and a login at that time.
  abbrev pub IsOpen : User → ℕ → Type 0
  IsOpen u now =
      (is_locked u.status ≡ false)
      × (is_suspended u.status ≡ false)
      × (is_after u.lockout_expires now ≡ false)

  -- An event whose publication is caught.
  pub published_lem :
      (event : UserEvent) (source id : String) (w : W)
      → published client.users event source id w
        ≡ (ok tt, (client.users.publish event source (concat "user-" id) w).1)
  published_lem event source id w =
      elim (Result-cases (client.users.publish event source (concat "user-" id) w).0) [
        | inl (done, is) ↦ rw is refl
        | inr (e, is) ↦ rw is refl
      ]

  module _ (email : String) (user seen : W → User) (account : IsAccount email user seen) where
    pub update_written :
        (i : UpdateUserInput) (w v : W)
        → (x : User) × ((update client.users (seen v).id i w).0 ≡ ok x)
          × (user (update client.users (seen v).id i w).1
              ≡ with_data
                  (changes i
                    (looked_up i.gender gender_of none)
                    (full_name_or i.first_name i.last_name i.full_name)
                    (client.users.now w))
                  (user w))
    unfolding update find_by_id required
    update_written i w v =
        let (old, loaded) = account.loads_id w v in
        let written =
          changes i (looked_up i.gender gender_of none)
            (full_name_or i.first_name i.last_name i.full_name) (client.users.now w) in
        let (x, done) = account.updates written w v in
        rw (loaded, done, published_lem (updated x old) "user-management" x.id _)
          (x, refl, account.publishes _ _ _ _ ∙ account.writes written w v)

    -- what a failed login writes
    abbrev failure : User → ℕ → UserData
    failure u now =
        changes
          (record no_input {
            failed_login_attempts = some (u.failed_login_attempts + 1);
            lockout_expires = lockout_after client (u.failed_login_attempts + 1) now;
          })
          none none now

    failure_written :
        (w v : W)
        → ((handle_failed_login client (seen v) w).0 ≡ ok tt)
          × (user (handle_failed_login client (seen v) w).1
              ≡ with_data (failure (seen v) (client.users.now w)) (user w))
    unfolding handle_failed_login
    failure_written w v =
        let (x, done, written) =
          update_written
            (record no_input {
              failed_login_attempts = some ((seen v).failed_login_attempts + 1);
              lockout_expires =
                  lockout_after client ((seen v).failed_login_attempts + 1) (client.users.now w);
            })
            w v in
        rw done (refl, written)

    pub login_fails :
        (p : String) (ip : Option String) (w : W)
        → IsOpen (seen w) (client.users.now w)
        → fits p (seen w).password ≡ false
        → ((login client email p ip w).0 ≡ err invalid_credentials)
          × (user (login client email p ip w).1
              ≡ with_data (failure (seen w) (client.users.now w)) (user w))
    unfolding login find_by_email check_account
    login_fails p ip w (unlocked, free, open_now) wrong =
        let (done, written) = failure_written w w in
        rw (account.loads w)
          (simp (unlocked, free, open_now, account.compares, wrong, done) (refl, written))

    -- a login while the account is locked out
    pub login-locked_out :
        (p : String) (ip : Option String) (w : W)
        → is_locked (seen w).status ≡ false
        → is_suspended (seen w).status ≡ false
        → is_after (seen w).lockout_expires (client.users.now w) ≡ true
        → login client email p ip w ≡ (err locked_out, w)
    unfolding login find_by_email check_account
    login-locked_out p ip w unlocked free out = rw (account.loads w) (simp (unlocked, free, out))

  -- logins with these passwords, one after the other
  unfoldable pub attempts : String → Option String → List String → W → W
  attempts email ip [] w = w
  attempts email ip (p ∷ ps) w = attempts email ip ps (login client email p ip w).1

  abbrev pub AllWrong : String → List String → Type 0
  AllWrong hash ps = All (λ p. fits p hash ≡ false) ps

  -- An account that may log in, with so many failures and that password.
  abbrev pub IsFree : User → ℕ → String → Type 0
  IsFree u failures hash =
      (is_locked u.status ≡ false)
      × (is_suspended u.status ≡ false)
      × (u.lockout_expires ≡ none)
      × (u.failed_login_attempts ≡ failures)
      × (u.password ≡ hash)
