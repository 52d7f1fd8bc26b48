-- ===== src/Cache.antt =====
-- The cache of the gateway: apps/gateway/src/services/cache.service.ts. Redis and JSON are parameters;
-- `J` is the type of JSON values, and `null` is `none`. Log output is left out.
pub mod Aside
mod Tests
use plus_api.Common.{
  ℕ, String, Bool, false, Option, none, some, List, [], ◌∷◌, str_eq, ◌==◌, if◌then◌else◌,
}
use plus_api.Common.Result.{Result, Async, pure, try_catch, ◌>>=◌}

pub record Redis (J W : Type 0) : Type 0 where
  pub get : String → Async W (Option String)
  pub setex : String → ℕ → String → Async W (Unit {0})
  pub del : List String → Async W (Unit {0})
  pub keys : String → Async W (List String)
  pub exists : String → Async W ℕ
  pub parse : String → Result J  -- `JSON.parse`
  pub stringify : J → Result String  -- `JSON.stringify`
  pub is_null : J → Bool

-- `ttl: number = this.DEFAULT_TTL`
abbrev pub ttl_or_default : Option ℕ → ℕ
ttl_or_default none = 300
ttl_or_default (some ttl) = ttl

module _ {J W : Type 0} (redis : Redis J W) where
  abbrev settled : {A : Type 0} → Result A → Async W A
  settled r w = (r, w)

  -- `if (value) return JSON.parse(value)`
  abbrev decoded : Option String → Async W (Option J)
  decoded none = pure none
  decoded (some text) =
      if str_eq text ""
      then pure none
      else settled (redis.parse text) >>= λ v. pure (if redis.is_null v then none else some v)

  unfoldable pub get : String → Async W (Option J)
  get key = try_catch (redis.get key >>= decoded) pure (λ e. pure none)

  unfoldable pub set : String → J → Option ℕ → Async W (Unit {0})
  set key v ttl =
      try_catch (settled (redis.stringify v) >>= λ text. redis.setex key (ttl_or_default ttl) text)
        pure (λ e. pure tt)

  pub delete : String → Async W (Unit {0})
  delete key = try_catch (redis.del (key ∷ [])) pure (λ e. pure tt)

  -- `if (keys.length > 0)`
  abbrev delete_keys : List String → Async W (Unit {0})
  delete_keys [] = pure tt
  delete_keys (k ∷ ks) = redis.del (k ∷ ks)

  pub delete_pattern : String → Async W (Unit {0})
  delete_pattern pattern = try_catch (redis.keys pattern >>= delete_keys) pure (λ e. pure tt)

  pub exists : String → Async W Bool
  exists key = try_catch (redis.exists key >>= λ n. pure (n == 1)) pure (λ e. pure false)

  -- what `getOrSet` does with the value that it has fetched
  abbrev keep_fetched : String → Option ℕ → J → Async W J
  keep_fetched key ttl v = set key v ttl >>= λ done. pure v

  abbrev cached_or_fetched : String → Async W J → Option ℕ → Option J → Async W J
  cached_or_fetched key fetch ttl (some v) = pure v
  cached_or_fetched key fetch ttl none = fetch >>= keep_fetched key ttl

  unfoldable pub get_or_set : String → Async W J → Option ℕ → Async W J
  get_or_set key fetch ttl = get key >>= cached_or_fetched key fetch ttl
