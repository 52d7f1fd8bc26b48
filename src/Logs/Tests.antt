-- ===== src/Logs/Tests.antt =====
-- The collector over an Elasticsearch that keeps what it is sent; V is the type of texts.
use plus_api.Common.{
  String, ◌≡◌, ◌≢◌, refl, true, false, none, List, [], ◌∷◌, ◌++◌, str_eq, eq_iff, arith,
}
use plus_api.Common.Result.{ok, err, Error, Async, new_error}
use plus_api.Logs.{BulkItem, Platform, Watcher, is_blank, flush_buffer}
use plus_api.Logs.Delivery.{
  LogEvent, arrived, flushed, documents, perform_all, HasSent, perform_all-HasSent,
  flush_buffer_loses,
}

abbrev Stored : Type 0
Stored = List (BulkItem String)

abbrev platform_with : (List (BulkItem String) → Async Stored (Unit {0})) → Platform String Stored
platform_with bulk = record {
  parse = λ s. none;
  field = λ k v. none;
  entries = λ v. [];
  text = λ s. s;
  match = λ p s. none;
  lower = λ s. s;
  production = true;
  now = λ w. "2024-05-01T10:00:00.000Z";
  day = λ w. "2024-05-01";
  bulk = bulk;
}

abbrev working : Platform String Stored
working = platform_with (λ body w. (ok tt, w ++ body))

abbrev broken : Platform String Stored
broken = platform_with (λ body w. (err (new_error "no connection"), w))

abbrev events : List LogEvent
events =
    arrived "started" "/logs/core.log"
    ∷ arrived "  " "/logs/core.log"
    ∷ flushed
    ∷ arrived "debug: ping" "/logs/core.log"
    ∷ arrived "stopped" "/logs/core.log"
    ∷ []

abbrev idle : Watcher Stored
idle = record { buffer = []; world = [] }

perform_all-HasSent_example :
    HasSent working
      (λ w. w)
      idle
      (perform_all working events idle)
      (("/logs/core.log", "started") ∷ ("/logs/core.log", "stopped") ∷ [])
unfolding is_blank
perform_all-HasSent_example =
    perform_all-HasSent working (λ w. w) events idle (record { sends = λ body w. refl })

abbrev waiting : Watcher Stored
waiting = record {
  buffer = record { timestamp = none; content = "started"; source = "/logs/core.log" } ∷ [];
  world = [];
}

flush_buffer_loses_example :
    ((flush_buffer broken waiting).buffer ≡ [])
    × ((e : Error)
        → ((body : List (BulkItem String)) (w : Stored) → (broken.bulk body w).0 ≡ err e)
        → documents (flush_buffer broken waiting).world ≡ [])
flush_buffer_loses_example =
    flush_buffer_loses broken documents waiting (record { stores = λ body w. refl })

differs : (s t : String) → str_eq s t ≡ false → s ≢ t
differs s t h = ground (arith, eq_iff s t)
