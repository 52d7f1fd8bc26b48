-- ===== src/Auth/Reset.antt =====
-- The reset of passwords by a token, over any number of accounts and whatever of an account but its id
-- the loaders have kept.
use plus_api.Common.{
  ℕ, ◌+◌, ◌≤◌, String, ◌≡◌, ◌⊎◌, ◌∙◌, refl, sym, ap, List, [], ◌∷◌, eq_iff, inl, inr, Bool, true,
  false, Option, none, some, Bool-cases, ltb, ◌&&◌, str_eq, arith,
}
use plus_api.Common.Result.{ok}
use plus_api.Users.Types.{
  User, UserEvent, updated, UserData, UpdateUserInput, no_input, reset_password_to, changes,
}
use plus_api.Users.{find_by_email, find_by_id, required, update}
use plus_api.Users.Rows.{with_data}
use plus_api.Auth.{AuthClient, is_after, minutes}
use plus_api.Auth.Attempts.{published_lem}
use plus_api.Auth.Accounts.{reset_token, request_password_reset, reset_password}

-- The account has this token, and it has not expired.
abbrev pub has_token : Option String → String → Bool
has_token none token = false
has_token (some s) token = str_eq s token

abbrev pub meets : User → String → ℕ → Bool
meets u token now = has_token u.password_reset_token token && is_after u.password_reset_expires now

module _ {W : Type 0} (client : AuthClient W) (digest : String → String) where
  -- `row` is the row with an id. The loaders give for the e-mail what they have kept of the account
  -- `me`; the query by a token finds some row with it that has not expired, or there is none; an
  -- update writes its row.
  pub record HoldsUsers (email me : String) (row : String → W → Option User) (seen : W → User)
      : Type 0 where
    pub loads : (w : W) → client.users.load_by_email email w ≡ (ok (some (seen w)), w)
    pub identifies : (w : W) → (seen w).id ≡ me
    pub loads_id : (w : W) → (x : User) × (client.users.load_by_id me w ≡ (ok (some x), w))
    pub publishes :
        (event : UserEvent) (source id k : String) (w : W)
        → row k (client.users.publish event source id w).1 ≡ row k w
    pub updates :
        (id : String) (d : UserData) (u : User) (w : W)
        → row id w ≡ some u
        → (x : User) × ((client.users.update_user id d w).0 ≡ ok x)
          × (row id (client.users.update_user id d w).1 ≡ some (with_data d u))
    pub spares :
        (id k : String) (d : UserData) (w : W)
        → str_eq id k ≡ false
        → row k (client.users.update_user id d w).1 ≡ row k w
    pub finds :
        (token : String) (now : ℕ) (w : W)
        → ((x : User) × (client.find_by_reset_token token now w ≡ (ok (some x), w))
            × (row x.id w ≡ some x)
            × (meets x token now ≡ true))
          ⊎ ((client.find_by_reset_token token now w ≡ (ok none, w))
              × ((id : String) (u : User) → row id w ≡ some u → meets u token now ≡ false))
    pub hashes : (p : String) (w : W) → client.hash p w ≡ (ok (digest p), w)

  -- resets with these passwords and the token that is in the source, whether they return or throw
  unfoldable pub reset_all : List String → W → W
  reset_all [] w = w
  reset_all (p ∷ ps) w = reset_all ps (reset_password client reset_token p w).1

  module _ (email me : String) (row : String → W → Option User) (seen : W → User)
      (held : HoldsUsers email me row seen) where
    -- The account has the token, until `t`.
    abbrev TokenStands : ℕ → W → Type 0
    TokenStands t w =
        (u : User) × (row me w ≡ some u)
        × (u.password_reset_token ≡ some reset_token)
        × (u.password_reset_expires ≡ some t)

    -- what a request writes
    abbrev request : ℕ → UpdateUserInput
    request now = record no_input {
      password_reset_token = some reset_token;
      password_reset_expires = some (now + minutes 60);
    }

    requested :
        (u : User) (w : W)
        → row me w ≡ some u
        → ((request_password_reset client email w).0 ≡ ok tt)
          × TokenStands (client.users.now w + minutes 60) (request_password_reset client email w).1
    unfolding request_password_reset find_by_email update find_by_id required
    requested u w there =
        let (old, loaded) = held.loads_id w in
        let written = changes (request (client.users.now w)) none none (client.users.now w) in
        let (x, done, wrote) = held.updates me written u w there in
        rw
          (
            held.loads w,
            held.identifies w,
            loaded,
            done,
            published_lem client (λ p h. true) (updated x old) "user-management" x.id
                (client.users.update_user me written w).1,
          )
          (refl, (with_data written u, held.publishes _ _ _ me _ ∙ wrote, refl, refl))

    -- a token that stands there with a date is good until then
    good_until :
        (u : User) (t now : ℕ)
        → u.password_reset_token ≡ some reset_token
        → u.password_reset_expires ≡ some t
        → (meets u reset_token now ≡ true) ⊎ (t ≤ now)
    good_until u t now token date = elim (Bool-cases (ltb now t)) [
      | inl early ↦ inl (rw (token, date, early) refl)
      | inr late ↦ inr (ground arith)
    ]

    -- A reset in this world returns, and has given the password to an account that had the token.
    abbrev pub Resets : String → W → Type 0
    Resets p w =
        ((reset_password client reset_token p w).0 ≡ ok tt)
        × ((x : User) × (row x.id w ≡ some x)
            × (meets x reset_token (client.users.now w) ≡ true)
            × ((v : User) × (row x.id (reset_password client reset_token p w).1 ≡ some v)
                × (v.password ≡ digest p)))

    user_or : User → Option User → User
    user_or u none = u
    user_or u (some v) = v

    reset_step :
        (p : String) (t : ℕ) (w : W)
        → TokenStands t w
        → (Resets p w ⊎ (t ≤ client.users.now w))
          × TokenStands t (reset_password client reset_token p w).1
    unfolding reset_password user_or
    reset_step p t w (u, mine, token, date) = elim (held.finds reset_token (client.users.now w) w) [
      | inr (none_found, all) ↦
          let not_good = all me u mine in
          rw none_found (
            elim (good_until u t (client.users.now w) token date) [
              | inl good ↦ let never = sym good ∙ not_good in cc
              | inr late ↦ inr late
            ],
            (u, mine, token, date),
          )
      | inl (x, found, there, good) ↦
          let (y, done, wrote) = held.updates x.id (reset_password_to (digest p)) x w there in
          rw (found, held.hashes p w, done)
            (
              inl (refl, (x, there, good, (record x { password = digest p }, wrote, refl))),
              elim (Bool-cases (str_eq x.id me)) [
                | inl same ↦
                    let eq : x.id ≡ me = (eq_iff x.id me).0 same in
                    let is : x ≡ u = ap (user_or x) (sym there ∙ ap (λ k. row k w) eq ∙ mine) in
                    (
                      record x { password = digest p },
                      ap
                            (λ k.
                              row k
                                (client.users.update_user x.id (reset_password_to (digest p)) w).1)
                            (sym eq)
                          ∙ wrote,
                      ap (λ z. z.password_reset_token) is ∙ token,
                      ap (λ z. z.password_reset_expires) is ∙ date,
                    )
                | inr differs ↦ (u, held.spares x.id me _ w differs ∙ mine, token, date)
              ],
            )
    ]

    reset_all_stands :
        (ps : List String) (t : ℕ) (w : W) → TokenStands t w → TokenStands t (reset_all ps w)
    unfolding reset_all
    reset_all_stands [] t w h = h
    reset_all_stands (p ∷ ps) t w h =
        reset_all_stands ps t (reset_password client reset_token p w).1 (reset_step p t w h).1

    -- Over a database in which an update of an account that is there returns and writes its row
    -- and no other, the query for a token gives some row that matches, no such query or hash
    -- throws and publishing changes no row; and with loaders that find the account, in whatever
    -- state they read it: after a request for the account, which asks for its e-mail only, and
    -- after any number of resets with the token that the source spells, each further reset with
    -- that token returns and gives its password to an account with the token, or an hour has
    -- passed since the request began. That account need not be the one of the request.
    pub reset_after_request :
        (u : User) (w : W)
        → row me w ≡ some u
        → let (r, w1) = request_password_reset client email w in
          (r ≡ ok tt)
          × ((ps : List String) (p : String)
              → Resets p (reset_all ps w1)
                ⊎ (client.users.now w + minutes 60 ≤ client.users.now (reset_all ps w1)))
    reset_after_request u w there =
        let (done, stands) = requested u w there in
        (
          done,
          (λ ps p.
              (reset_step p _ _
                (reset_all_stands ps _ (request_password_reset client email w).1 stands)).0),
        )
