-- ===== src/Users/Tests.antt =====
-- Two tokens without a `jit`, over a Redis that forgets nothing.
use plus_api.Common.{
  ℕ, String, ◌≡◌, refl, true, none, some, [], str_eq, eq_refl, if◌then◌else◌, arith,
}
use plus_api.Common.Dict.{Dict, lookup, insert, lookup-insert}
use plus_api.Common.Result.{ok}
use plus_api.Users.Types.{DecodedToken, UserClient}
use plus_api.Users.Sample.{sample_user, sample_client}
use plus_api.Users.Tokens.{logout, is_token_blacklisted}
use plus_api.Users.Blacklist.{HoldsKeys, is_token_blacklisted-logout}

abbrev Keys : Type 0
Keys = Dict String

abbrev decoded : ℕ → DecodedToken
decoded exp = record { exp = some exp; jit = none }

abbrev client : UserClient Keys
client = record (sample_client (λ w. sample_user) (λ w u. w)) {
  redis_set = λ key ttl w. (ok tt, insert key "true" w);
  redis_get = λ key w. (ok (lookup key w), w);
  decode = λ token. some (if str_eq token "ann's" then decoded 900 else decoded 1800);
}

keys : HoldsKeys client (λ w key. lookup key w)
keys = record {
  reads = λ key w. refl;
  sets = λ key ttl w. refl;
  holds = λ key ttl w. rw (lookup-insert key key "true" w, eq_refl key) refl;
}

is_token_blacklisted-logout_example :
    ((logout client "ann's" []).0 ≡ ok true)
    × (is_token_blacklisted client "bob's" (logout client "ann's" []).1
        ≡ (ok true, (logout client "ann's" []).1))
is_token_blacklisted-logout_example =
    is_token_blacklisted-logout client (λ w key. lookup key w) "ann's" "bob's" (decoded 900)
      (decoded 1800) 900 1800 [] keys (refl, refl, refl) (refl, refl, refl) (omega arith) refl
