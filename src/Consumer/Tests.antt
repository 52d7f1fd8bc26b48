-- ===== src/Consumer/Tests.antt =====
-- Deliveries to a broker that keeps the committed offsets and the letters sent.
use plus_api.Common.{
  ℕ, ◌+◌, String, ◌≡◌, ◌⊎◌, refl, none, some, List, [], ◌∷◌, true, str_eq, if◌then◌else◌,
}
use plus_api.Common.Dict.{Dict, lookup}
use plus_api.Common.Result.{ok, err, Error, new_error}
use plus_api.Consumer.Attempts.{count, below_limit, parse_int}
use plus_api.Consumer.{
  RawMessage, Broker, Handler, get_retry_attempt, process, commit, send_to_dead_letter_queue,
  retry_or_bury, handle_message,
}
use plus_api.Consumer.Delivery.{IsHandled, IsBuried, handle_message_commits}
use plus_api.Consumer.Redelivery.{deliveries, deliveries_unseen}

record Log : Type 0 where
  offsets : List ℕ
  letters : List String
  waited : ℕ

abbrev bad : Error
bad = new_error "not JSON"

abbrev broker : Broker String Log
broker = record {
  parse = λ text. if str_eq text "bad" then err bad else ok text;
  commit_offsets = λ c w.
      (ok tt, record { offsets = c.offset ∷ w.offsets; letters = w.letters; waited = w.waited });
  send = λ l w.
      (ok tt, record { offsets = w.offsets; letters = l.error ∷ w.letters; waited = w.waited });
  now = λ w. (0, w);
  sleep = λ ms w. record { offsets = w.offsets; letters = w.letters; waited = ms + w.waited };
}

abbrev empty : Log
empty = record { offsets = []; letters = []; waited = 0 }

abbrev broken : Error
broken = new_error "index is down"

abbrev always_fail : Handler String Log
always_fail message w = (err broken, w)

abbrev handlers : Dict (Handler String Log)
handlers = ("user.created", always_fail) ∷ []

abbrev message : String → Dict String → RawMessage
message body headers = record {
  key = none;
  value = some body;
  offset = 7;
  headers = headers;
  timestamp = none;
}

abbrev fourth : Dict String
fourth = ("x-retry-count", " 3x") ∷ []

fourth-count : get_retry_attempt (message "{}" fourth) ≡ count 3
unfolding lookup parse_int
fourth-count = refl

abbrev one_letter : Log
one_letter = record { offsets = 8 ∷ []; letters = "index is down" ∷ []; waited = 0 }

-- A message on its last attempt is committed after a letter was sent.
buried :
    handle_message broker handlers "user.created" 0 (message "{}" fourth) empty
    ≡ (ok tt, one_letter)
unfolding handle_message process retry_or_bury send_to_dead_letter_queue lookup parse_int
buried = refl

-- A body that is no JSON is committed without a letter.
lost :
    handle_message broker handlers "user.created" 0 (message "bad" fourth) empty
    ≡ (ok tt, record { offsets = 8 ∷ []; letters = []; waited = 0 })
unfolding handle_message process retry_or_bury send_to_dead_letter_queue lookup parse_int
lost = refl

handle_message_commits_example :
    let m = message "{}" fourth in
    (w : Log) × (IsHandled broker handlers "user.created" 0 m empty w
      ⊎ IsBuried broker handlers "user.created" 0 m empty w)
    × (commit broker "user.created" 0 m w ≡ (ok tt, one_letter))
handle_message_commits_example =
    handle_message_commits broker handlers "user.created" 0 (message "{}" fourth) empty one_letter
      buried

failed : (w : Log) → process broker handlers "user.created" 0 (message "{}" []) w ≡ (err broken, w)
unfolding process lookup
failed w = refl

fails :
    (w : Log)
    → (e : Error) × (w' : Log) × (process broker handlers "user.created" 0 (message "{}" []) w
        ≡ (err e, w'))
      × (w'.offsets ≡ w.offsets)
fails w = (broken, w, failed w, refl)

no_header : lookup "x-retry-count" (message "{}" []).headers ≡ none
unfolding lookup
no_header = refl

first_attempt : below_limit (get_retry_attempt (message "{}" [])) ≡ true
unfolding lookup
first_attempt = refl

deliveries_unseen_example :
    (e : Error) × (w : Log) × (deliveries broker handlers "user.created" 0
        (message "{}" [])
        100
        empty
      ≡ (err e, w))
    × (w.offsets ≡ [])
deliveries_unseen_example =
    deliveries_unseen broker handlers "user.created" 0 (message "{}" []) (λ w. w.offsets) fails
      (λ ms w. refl) no_header 100 empty
