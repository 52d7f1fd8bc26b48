-- ===== src/Users/Tokens.antt =====
-- Tokens of users: login, logout and isTokenBlacklisted of apps/core/src/users/users.service.ts.
use Prim.Native.String.{◌++◌ as concat}
use plus_api.Common.{
  ℕ, ◌-◌, ◌/◌, String, Bool, true, false, Option, none, some, List, [], ◌∷◌, ltb, ◌==◌,
  if◌then◌else◌,
}
use plus_api.Common.Text.{is_truthy}
use plus_api.Common.Result.{
  ok, Error, ErrorClass, error_of, Async, pure, throw, try_catch, ◌>>=◌, ◌>>◌,
}
use plus_api.Users.Types.{Role, User, no_claim, joined, access, refresh, DecodedToken, UserClient}

pub record Tokens : Type 0 where
  pub access_token : String
  pub refresh_token : String
  pub user_id : String

abbrev pub invalid_credentials : Error
invalid_credentials =
    error_of ErrorClass.graphql "Invalid credentials. Please check your email and password."
      "INVALID_CREDENTIALS"

-- `keys.join(',')`
unfoldable pub join_keys : List Role → String
join_keys [] = ""
join_keys (r ∷ []) = r.key
join_keys (r ∷ s ∷ rs) = concat r.key (concat "," (join_keys (s ∷ rs)))

-- `${decodedToken.jit}`
abbrev pub text_of : Option String → String
text_of none = "undefined"
text_of (some s) = s

abbrev pub blacklist_key : DecodedToken → String
blacklist_key decoded = concat "blacklist:" (text_of decoded.jit)

module _ {W : Type 0} (client : UserClient W) where
  abbrev pub signed : User → Async W Tokens
  signed user w = (
    ok (record {
      access_token =
          client.sign
            (record { user_id = user.id; email = none; roles = joined (join_keys user.roles) })
            access w;
      refresh_token =
          client.sign (record { user_id = user.id; email = none; roles = no_claim }) refresh w;
      user_id = user.id;
    }),
    w,
  )

  abbrev pub check_login : String → Option User → Async W Tokens
  check_login password none = throw invalid_credentials
  check_login password (some user) = client.verify_password password user.password >>= λ valid.
      if valid then signed user else throw invalid_credentials

  unfoldable pub login : String → String → Async W Tokens
  login email password = client.find_unique email >>= check_login password

  -- `if (!decodedToken || !decodedToken.exp) throw …`, and else the token with its expiry
  abbrev pub with_exp : DecodedToken → Option ℕ → Async W (DecodedToken × ℕ)
  with_exp decoded none = throw invalid_credentials
  with_exp decoded (some exp) = if exp == 0 then throw invalid_credentials else pure (decoded, exp)

  abbrev pub checked : Option DecodedToken → Async W (DecodedToken × ℕ)
  checked none = throw invalid_credentials
  checked (some decoded) = with_exp decoded decoded.exp

  abbrev pub decoded_token : String → Async W (DecodedToken × ℕ)
  decoded_token token = checked (client.decode token)

  -- `if (expiration > 0)`, with `exp` in seconds
  abbrev pub blacklist : DecodedToken × ℕ → Async W (Unit {0})
  blacklist (decoded, exp) w =
      (if ltb (client.now w / 1000) exp
          then client.redis_set (blacklist_key decoded) (exp - client.now w / 1000)
          else pure tt)
        w

  unfoldable pub logout : String → Async W Bool
  logout token = try_catch (decoded_token token >>= blacklist >> pure true) pure (λ e. pure false)

  unfoldable pub is_token_blacklisted : String → Async W Bool
  is_token_blacklisted token = decoded_token token >>= λ found.
      client.redis_get (blacklist_key found.0) >>= λ v. pure (is_truthy v)
