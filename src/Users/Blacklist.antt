-- ===== src/Users/Blacklist.antt =====
-- Which tokens a logout blacklists.
use Prim.Native.String.{◌++◌ as concat}
use plus_api.Common.{
  ℕ, ◌-◌, ◌/◌, ◌<◌, String, ◌≡◌, ◌∙◌, refl, sym, ap, true, false, Option, some, lt→ltb, ◌==◌,
}
use plus_api.Common.Result.{ok}
use plus_api.Users.Types.{DecodedToken, UserClient}
use plus_api.Users.Tokens.{text_of, blacklist_key, decoded_token, logout, is_token_blacklisted}

module _ {W : Type 0} (client : UserClient W) (entry : W → String → Option String) where
  -- Redis returns what it holds, and holds `true` under a key that was set, while it lasts.
  pub record HoldsKeys : Type 0 where
    pub reads : (key : String) (w : W) → client.redis_get key w ≡ (ok (entry w key), w)
    pub sets : (key : String) (ttl : ℕ) (w : W) → (client.redis_set key ttl w).0 ≡ ok tt
    pub holds :
        (key : String) (ttl : ℕ) (w : W) → entry (client.redis_set key ttl w).1 key ≡ some "true"

  -- A token that can be decoded, with an expiry.
  abbrev pub Decodes : String → DecodedToken → ℕ → Type 0
  Decodes token d exp = (client.decode token ≡ some d) × (d.exp ≡ some exp) × (exp == 0 ≡ false)

  decoded_lem :
      (token : String) (d : DecodedToken) (exp : ℕ) (w : W)
      → Decodes token d exp
      → decoded_token client token w ≡ (ok (d, exp), w)
  decoded_lem token d exp w (decoded, date, more) = rw decoded (simp (date, more))

  -- After a logout with a token that has not expired, each token with the same `jit` is blacklisted:
  -- the token itself, and where the payload has no `jit`, as in those that `login` signs, every
  -- other that has none.
  pub is_token_blacklisted-logout :
      (token other : String) (d d' : DecodedToken) (exp exp' : ℕ) (w : W)
      → HoldsKeys
      → Decodes token d exp
      → Decodes other d' exp'
      → client.now w / 1000 < exp
      → d.jit ≡ d'.jit
      → let (r, w') = logout client token w in
        (r ≡ ok true) × (is_token_blacklisted client other w' ≡ (ok true, w'))
  unfolding logout is_token_blacklisted
  is_token_blacklisted-logout token other d d' exp exp' w keys known known' early same =
      let first = decoded_lem token d exp w known in
      let ttl = exp - client.now w / 1000 in
      let w' = (client.redis_set (blacklist_key d) ttl w).1 in
      let shape : logout client token w ≡ (ok true, w') =
        rw (first, lt→ltb _ _ early, keys.sets (blacklist_key d) ttl w) refl in
      let held : entry w' (blacklist_key d') ≡ some "true" =
        ap (λ j. entry w' (concat "blacklist:" (text_of j))) (sym same)
        ∙ keys.holds (blacklist_key d) ttl w in
      rw shape (
        refl,
        rw (decoded_lem other d' exp' w' known', keys.reads (blacklist_key d') w', held) refl,
      )
