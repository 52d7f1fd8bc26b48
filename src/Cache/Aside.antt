-- ===== src/Cache/Aside.antt =====
-- Reading through the cache: what getOrSet returns, and how long it does not fetch again.
use plus_api.Common.{ℕ, String, ◌≡◌, false, Option, some, str_eq}
use plus_api.Common.Result.{ok}
use plus_api.Cache.{Redis, get}

module _ {J W : Type 0} (redis : Redis J W) where
  module _ (entry : W → String → Option String) where
    -- Redis returns what it holds and changes nothing, and holds what it was given last; the text of
    -- a value is not empty, and is parsed as that value.
    pub record IsStore : Type 0 where
      pub reads : (key : String) (w : W) → redis.get key w ≡ (ok (entry w key), w)
      pub returns :
          (key : String) (ttl : ℕ) (text : String) (w : W) → (redis.setex key ttl text w).0 ≡ ok tt
      pub writes :
          (key : String) (ttl : ℕ) (text : String) (w : W)
          → entry (redis.setex key ttl text w).1 key ≡ some text
      pub encodes :
          (v : J)
          → (text : String) × (redis.stringify v ≡ ok text)
            × (str_eq text "" ≡ false)
            × (redis.parse text ≡ ok v)
