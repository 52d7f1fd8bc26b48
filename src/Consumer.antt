-- ===== src/Consumer.antt =====
-- The searcher's Kafka consumer: apps/searcher/src/kafka/kafka-consumer.service.ts. The Kafka client,
-- JSON and the clock are parameters; an offset, a decimal text in the source, is its number, and
-- headers and message bodies are texts. Log output is left out.
pub mod Attempts
pub mod Delivery
pub mod Redelivery
mod Tests
use plus_api.Common.{ℕ, ◌+◌, String, Option, none, some, Bool, if◌then◌else◌}
use plus_api.Common.Text.{or_text}
use plus_api.Common.Dict.{Dict, lookup, insert}
use plus_api.Common.Result.{Result, ok, err, Error, Async, pure, throw, try_catch, ◌>>=◌, ◌>>◌}
use plus_api.Consumer.Attempts.{Count, parse_int, count, below_limit, delay}

-- what kafkajs delivers
pub record RawMessage : Type 0 where
  pub key : Option String
  pub value : Option String
  pub offset : ℕ
  pub headers : Dict String
  pub timestamp : Option String

-- what a handler gets, with a parsed body of the type `J`
pub record KafkaMessage (J : Type 0) : Type 0 where
  pub topic : String
  pub partition : Option ℕ
  pub offset : ℕ
  pub key : Option String
  pub value : Option J
  pub headers : Dict String
  pub timestamp : Option String

pub record FailedMessage (J : Type 0) : Type 0 where
  pub original_topic : String
  pub message : KafkaMessage J
  pub error : String
  pub attempt_count : Count
  pub first_attempt_at : ℕ
  pub last_attempt_at : ℕ

pub record Commit : Type 0 where
  pub topic : String
  pub partition : ℕ
  pub offset : ℕ

-- a record for the dead-letter topic, before it is turned into text
pub record Letter (J : Type 0) : Type 0 where
  pub topic : String
  pub key : Option String
  pub value : FailedMessage J
  pub original_topic : String
  pub error : String
  pub retry_count : Count

-- the Kafka client, `JSON.parse`, the clock and `setTimeout`
pub record Broker (J W : Type 0) : Type 0 where
  pub parse : String → Result J
  pub commit_offsets : Commit → Async W (Unit {0})
  pub send : Letter J → Async W (Unit {0})
  pub now : W → ℕ × W
  pub sleep : ℕ → W → W

abbrev pub Handler : Type 0 → Type 0 → Type 0
Handler J W = KafkaMessage J → Async W (Unit {0})

-- the service's own state
pub record Service (J W : Type 0) : Type 0 where
  pub message_handlers : Dict (Handler J W)
  pub is_shutting_down : Bool

abbrev pub dlq_topic : String
dlq_topic = "searcher.dlq"

-- registerHandler
unfoldable pub register_handler : {J W : Type 0} → String → Handler J W → Service J W → Service J W
register_handler topic handler s = record {
  message_handlers = insert topic handler s.message_handlers;
  is_shutting_down = s.is_shutting_down;
}

-- getRetryAttempt
abbrev pub retry_attempt_of : Option String → Count
retry_attempt_of none = count 0
retry_attempt_of (some header) = parse_int header

abbrev pub get_retry_attempt : RawMessage → Count
get_retry_attempt m = retry_attempt_of (lookup "x-retry-count" m.headers)

-- `error.message || String(error)`
abbrev pub error_text : Error → String
error_text e = or_text (some e.message) "Error"

abbrev pub message_of : {J : Type 0} → String → Option ℕ → RawMessage → Option J → KafkaMessage J
message_of topic partition m value = record {
  topic = topic;
  partition = partition;
  offset = m.offset;
  key = m.key;
  value = value;
  headers = m.headers;
  timestamp = m.timestamp;
}

abbrev pub letter_of :
    {J : Type 0} → String → RawMessage → Error → Count → Option J → ℕ → ℕ → Letter J
letter_of topic m e attempts value first last = record {
  topic = dlq_topic;
  key = m.key;
  value = record {
    original_topic = topic;
    message = message_of topic none m value;
    error = error_text e;
    attempt_count = attempts;
    first_attempt_at = first;
    last_attempt_at = last;
  };
  original_topic = topic;
  error = error_text e;
  retry_count = attempts;
}

module _ {J W : Type 0} where
  abbrev pub parse_result : Result J → Async W (Option J)
  parse_result (ok j) = pure (some j)
  parse_result (err e) = throw e

  abbrev pub dispatch : Option (Handler J W) → KafkaMessage J → Async W (Unit {0})
  dispatch (some handler) message = handler message
  dispatch none message = pure tt

module _ {J W : Type 0} (broker : Broker J W) where
  -- `message.value ? JSON.parse(message.value.toString()) : null`
  abbrev pub parse_value : Option String → Async W (Option J)
  parse_value none = pure none
  parse_value (some text) = parse_result (broker.parse text)

  abbrev pub commit : String → ℕ → RawMessage → Async W (Unit {0})
  commit topic partition m =
      broker.commit_offsets (record { topic = topic; partition = partition; offset = m.offset + 1 })

  -- the `try` of handleMessage
  unfoldable pub process : Dict (Handler J W) → String → ℕ → RawMessage → Async W (Unit {0})
  process handlers topic partition m = parse_value m.value >>= λ value.
      dispatch (lookup topic handlers) (message_of topic (some partition) m value)
      >> commit topic partition m

  abbrev pub send_letter : String → RawMessage → Error → Count → Option J → Async W (Unit {0})
  send_letter topic m e attempts value w =
      let (first, w') = broker.now w in
      let (last, w'') = broker.now w' in
      broker.send (letter_of topic m e attempts value first last) w''

  -- sendToDeadLetterQueue, whose own errors are only logged
  unfoldable pub send_to_dead_letter_queue :
      String → RawMessage → Error → Count → Async W (Unit {0})
  send_to_dead_letter_queue topic m e attempts =
      try_catch (parse_value m.value >>= send_letter topic m e attempts) pure (λ _. pure tt)

  -- the `catch` of handleMessage
  unfoldable pub retry_or_bury : String → ℕ → RawMessage → Count → Error → Async W (Unit {0})
  retry_or_bury topic partition m attempts e w =
      if below_limit attempts
      then (err e, broker.sleep (delay attempts) w)
      else (send_to_dead_letter_queue topic m e attempts >> commit topic partition m) w

  unfoldable pub handle_message : Dict (Handler J W) → String → ℕ → RawMessage → Async W (Unit {0})
  handle_message handlers topic partition m =
      try_catch (process handlers topic partition m) pure
        (retry_or_bury topic partition m (get_retry_attempt m))

  -- eachMessage
  unfoldable pub each_message : Service J W → String → ℕ → RawMessage → Async W (Unit {0})
  each_message s topic partition m w =
      if s.is_shutting_down
      then (ok tt, w)
      else handle_message s.message_handlers topic partition m w
