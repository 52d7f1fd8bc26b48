-- ===== src/Cache/Tests.antt =====
-- A Redis that keeps every entry.
use Prim.Native.Char.{Char}
use Prim.Native.String.{char_at}
use plus_api.Common.{String, [], map, str_eq}
use plus_api.Common.Dict.{Dict, lookup, insert}
use plus_api.Common.Result.{ok, err, new_error, Async}
use plus_api.Cache.{Redis, get}

abbrev Kept : Type 0
Kept = Dict String

-- the values are texts, and null is the one that says so
abbrev quote : Char
quote = char_at "'" 0

abbrev redis : Redis String Kept
redis = record {
  get = λ k w. (ok (lookup k w), w);
  setex = λ k ttl text w. (ok tt, insert k text w);
  del = λ ks w. (ok tt, w);
  keys = λ pattern w. (ok (map (λ e. e.0) w), w);
  exists = λ k w. (ok 0, w);
  parse = λ text. ok (unquoted text);
  stringify = λ v. ok (String.◌∷◌ quote v);
  is_null = λ v. str_eq v "null";
}
  where
    unquoted : String → String
    unquoted String.[] = String.[]
    unquoted (String.◌∷◌ c v) = v

abbrev fetch : Async Kept String
fetch w = (ok "admin", w)

abbrev fails : Async Kept String
fails w = (err (new_error "no service"), w)
