-- ===== src/Auth/Stale.antt =====
-- Failed logins in a row, where the loaders keep the account as they read it first, as a DataLoader with
-- its cache does for as long as it lives; UsersService makes its loaders once.
use plus_api.Common.{◌+◌, ◌<◌, String, ◌≡◌, ◌∙◌, refl, ap, Bool, false, Option, none, List, [], ◌∷◌}
use plus_api.Common.Result.{err}
use plus_api.Users.Types.{User}
use plus_api.Auth.{AuthClient, is_locked, is_suspended, is_after, invalid_credentials, login}
use plus_api.Users.Rows.{or_old?}
use plus_api.Auth.Attempts.{lockout_below, IsAccount, login_fails, attempts, AllWrong}

module _ {W : Type 0} (client : AuthClient W) (fits : String → String → Bool) where
  module _ (email : String) (ip : Option String) (user : W → User) (u : User)
      (account : IsAccount client fits email user (λ w. u)) where
    abbrev SeenFree : Type 0
    SeenFree =
        (is_locked u.status ≡ false) × (is_suspended u.status ≡ false) × (u.lockout_expires ≡ none)

    stale_fails :
        (p : String) (w : W)
        → SeenFree
        → fits p u.password ≡ false
        → u.failed_login_attempts + 1 < client.max_login_attempts
        → ((login client email p ip w).0 ≡ err invalid_credentials)
          × ((user (login client email p ip w).1).failed_login_attempts
              ≡ u.failed_login_attempts + 1)
          × ((user (login client email p ip w).1).lockout_expires ≡ (user w).lockout_expires)
    stale_fails p w (unlocked, free, out) wrong below =
        let t = client.users.now w in
        let (failed, written) =
          login_fails client fits email user (λ v. u) account p ip w
            (unlocked, free, ap (λ o. is_after o t) out) wrong in
        (
          failed,
          ap (λ x. x.failed_login_attempts) written,
          ap (λ x. x.lockout_expires) written
              ∙ ap (λ o. or_old? o (user w).lockout_expires)
                  (lockout_below client (u.failed_login_attempts + 1) t below),
        )

    attempts_stale :
        (ps : List String) (w : W)
        → SeenFree
        → AllWrong client fits u.password ps
        → u.failed_login_attempts + 1 < client.max_login_attempts
        → (user (attempts client fits email ip ps w)).lockout_expires ≡ (user w).lockout_expires
    unfolding attempts
    attempts_stale [] w free wrong below = refl
    attempts_stale (p ∷ ps) w free wrong below =
        let (_, _, kept) = stale_fails p w free wrong.0 below in
        attempts_stale ps (login client email p ip w).1 free wrong.1 below ∙ kept

    -- Where the loaders give the account as it was when it was loaded first, without a lockout and one
    -- failure or more below the limit: after any number of logins with a wrong password the next such
    -- login is answered like the first, leaves one more failure in the row than there was at the
    -- first load, and the row has no other lockout than at the start.
    pub login_never_locks_out :
        (ps : List String) (p : String) (w : W)
        → (is_locked u.status ≡ false)
          × (is_suspended u.status ≡ false)
          × (u.lockout_expires ≡ none)
        → AllWrong client fits u.password ps
        → fits p u.password ≡ false
        → u.failed_login_attempts + 1 < client.max_login_attempts
        → let (r, w') = login client email p ip (attempts client fits email ip ps w) in
          (r ≡ err invalid_credentials)
          × ((user w').failed_login_attempts ≡ u.failed_login_attempts + 1)
          × ((user w').lockout_expires ≡ (user w).lockout_expires)
    login_never_locks_out ps p w free wrong_all wrong below =
        let (failed, count, kept) =
          stale_fails p (attempts client fits email ip ps w) free wrong below in
        (failed, count, kept ∙ attempts_stale ps w free wrong_all below)
