-- ===== src/Logs.antt =====
-- The log collector, from a line to Elasticsearch: apps/logger/src/log-processor/log-processor.service.ts,
-- `shipLogBatch` of log-shipper/log-shipper.service.ts, and `handleLogLine` and `flushBuffer` of
-- file-watcher/file-watcher.service.ts. JSON.parse, the engine of regular expressions, `toLowerCase`
-- and Elasticsearch are parameters; `V` is the type of JSON values. One flush is one action.
pub mod Names
pub mod Service
pub mod Delivery
mod Tests
use Prim.Native.Char.{Char, code}
use Prim.Native.String.{◌++◌ as concat}
use text.Mathlib.Text.{find?}
use plus_api.Common.{
  ℕ, String, Bool, true, false, not, ◌&&◌, ◌||◌, Option, none, some, List, [], ◌∷◌, ◌++◌, map,
  reverse, str_eq, leb, ltb, ◌==◌, if◌then◌else◌,
}
use plus_api.Common.Dict.{Dict, lookup, insert, erase}
use plus_api.Common.Lists.{length}
use plus_api.Common.Text.{is_found, join_first}
use plus_api.Common.Result.{Result, ok, err, Error, Async, pure, try_catch, ◌>>=◌}
use Names.{extract_service_name}

pub record RawLogLine : Type 0 where
  pub timestamp : Option String
  pub content : String
  pub source : String

-- the patterns of `parseUnstructuredLog`, in order
pub data Pattern : Type 0 where
  nginx application simple docker : Pattern

pub record LogEntry (V : Type 0) : Type 0 where
  pub timestamp : V
  pub level : V
  pub message : V
  pub service : String
  pub metadata : Dict V

-- an element of the body of a bulk request
pub data BulkItem (V : Type 0) : Type 0 where
  index : String → BulkItem V
  document : Dict V → BulkItem V

pub record Platform (V W : Type 0) : Type 0 where
  pub parse : String → Option V  -- `JSON.parse`: a value that is no false one
  pub field : String → V → Option V  -- a field of a value, if it is there and no false value
  pub entries : V → Dict V  -- what `...value` spreads
  pub text : String → V
  pub match : Pattern → String → Option (Dict String)  -- `content.match(pattern).groups`
  pub lower : String → String
  pub production : Bool  -- `NODE_ENV === 'production'`
  pub now : W → String  -- `new Date().toISOString()`
  pub day : W → String  -- its first ten characters
  pub bulk : List (BulkItem V) → Async W (Unit {0})  -- `elasticsearchClient.bulk`

pub record Unstructured : Type 0 where
  pub timestamp : Option String
  pub level : Option String
  pub message : String
  pub metadata : Option (Dict String)

-- `a || b` on texts that may be missing, and on values
abbrev pub or_text : Option String → String → String
or_text none b = b
or_text (some a) b = if str_eq a "" then b else a

abbrev pub or_value : {V : Type 0} → Option V → V → V
or_value none b = b
or_value (some a) b = a

abbrev pub is_space : Char → Bool
is_space c = code c == b' ' || (leb 9 (code c) && leb (code c) 13)

-- `text.trim() === ''`, of spaces within ASCII
unfoldable pub is_blank : String → Bool
is_blank String.[] = true
is_blank (String.◌∷◌ c s) = is_space c && is_blank s

-- `{ ...base, ...more }`: what is spread later replaces a field of the same name.
unfoldable pub spread : {V : Type 0} → Dict V → Dict V → Dict V
spread base [] = base
spread base ((k, v) ∷ more) = spread (insert k v base) more

module _ {V W : Type 0} (platform : Platform V W) where
  -- `{ timestamp, level, message, ...metadata } = match.groups`
  unfoldable pub of_groups : String → Dict String → Unstructured
  of_groups content gs =
      let rest = erase "message" (erase "level" (erase "timestamp" gs)) in
      record {
        timestamp = lookup "timestamp" gs;
        level = lower_level (lookup "level" gs);
        message = or_text (lookup "message" gs) content;
        metadata = if_any rest;
      }
    where
      lower_level : Option String → Option String
      lower_level none = none
      lower_level (some l) = some (platform.lower l)

      if_any : Dict String → Option (Dict String)
      if_any [] = none
      if_any (e ∷ es) = some (e ∷ es)

  -- the loop over the patterns
  unfoldable pub first_match : List Pattern → String → Unstructured
  first_match [] content = record {
    timestamp = none;
    level = none;
    message = content;
    metadata = none;
  }
  first_match (p ∷ ps) content = elim (platform.match p content) [
    | some gs ↦ of_groups content gs
    | none ↦ first_match ps content
  ]

  abbrev pub parse_unstructured_log : String → Unstructured
  parse_unstructured_log content =
      first_match (Pattern.nginx ∷ Pattern.application ∷ Pattern.simple ∷ Pattern.docker ∷ [])
        content

  abbrev texts_of : Dict String → Dict V
  texts_of [] = []
  texts_of ((k, t) ∷ gs) = (k, platform.text t) ∷ texts_of gs

  abbrev extra_of : Option (Dict String) → Dict V
  extra_of none = []
  extra_of (some gs) = texts_of gs

  -- `{ source, raw, ...extra }`
  abbrev metadata_of : RawLogLine → Dict V → Dict V
  metadata_of raw extra =
      spread (("source", platform.text raw.source) ∷ ("raw", platform.text raw.content) ∷ []) extra

  structured_entry : RawLogLine → String → V → LogEntry V
  structured_entry raw now v = record {
    timestamp = or_value (platform.field "timestamp" v) (platform.text (or_text raw.timestamp now));
    level = or_value (platform.field "level" v) (platform.text "info");
    message = or_value (platform.field "message" v) (platform.text raw.content);
    service = extract_service_name raw.source;
    metadata = metadata_of raw (platform.entries v);
  }

  unstructured_entry : RawLogLine → String → Unstructured → LogEntry V
  unstructured_entry raw now u = record {
    timestamp = platform.text (or_text u.timestamp (or_text raw.timestamp now));
    level = platform.text (or_text u.level "info");
    message = platform.text (if str_eq u.message "" then raw.content else u.message);
    service = extract_service_name raw.source;
    metadata = metadata_of raw (extra_of u.metadata);
  }

  -- Nothing in the `try` throws, so its `catch` is not reached.
  pub process_raw_log_line : RawLogLine → String → LogEntry V
  unfolding structured_entry unstructured_entry
  process_raw_log_line raw now = elim (platform.parse raw.content) [
    | some v ↦ structured_entry raw now v
    | none ↦ unstructured_entry raw now (parse_unstructured_log raw.content)
  ]

  pub process_batch : List RawLogLine → String → List (LogEntry V)
  process_batch [] now = []
  process_batch (raw ∷ raws) now = process_raw_log_line raw now ∷ process_batch raws now

  -- `{ timestamp, level, message, service, ...metadata }`
  pub document_of : LogEntry V → Dict V
  document_of e =
      spread
        (("timestamp", e.timestamp)
          ∷ ("level", e.level)
          ∷ ("message", e.message)
          ∷ ("service", platform.text e.service)
          ∷ [])
        e.metadata

  -- `logEntries.flatMap(…)`
  pub body_of : String → List (LogEntry V) → List (BulkItem V)
  body_of day [] = []
  body_of day (e ∷ es) =
      index (concat "anineplus-logs-" day) ∷ document (document_of e) ∷ body_of day es

  -- An error is logged.
  pub ship_log_batch : List (LogEntry V) → Async W (Unit {0})
  ship_log_batch entries w =
      try_catch (platform.bulk (body_of (platform.day w) entries)) pure (λ e. pure tt) w

  -- `if (processedLogs.length > 0)`
  ship_some : List (LogEntry V) → Async W (Unit {0})
  ship_some [] = pure tt
  ship_some (e ∷ es) = ship_log_batch (e ∷ es)

  -- An error is logged.
  pub process_and_ship : List RawLogLine → Async W (Unit {0})
  process_and_ship raws w =
      try_catch (ship_some (process_batch raws (platform.now w))) pure (λ e. pure tt) w

  pub should_process_log : RawLogLine → Bool
  should_process_log raw =
      if is_blank raw.content
      then false
      else not (platform.production && is_found (find? (platform.lower raw.content) "debug"))

-- The file watcher's buffer, and the world.
pub record Watcher (W : Type 0) : Type 0 where
  pub buffer : List RawLogLine
  pub world : W

module _ {V W : Type 0} (platform : Platform V W) where
  pub handle_log_line : String → String → Watcher W → Watcher W
  handle_log_line line path s =
      let raw : RawLogLine = record {
        timestamp = some (platform.now s.world);
        content = line;
        source = path;
      } in
      if is_blank line
      then s
      else if should_process_log platform raw
      then record s { buffer = s.buffer ++ raw ∷ [] }
      else s

  -- the `catch` of `flushBuffer`: the lines go back, unless the buffer is long
  give_back : List RawLogLine → Watcher W → Watcher W
  give_back taken s =
      if ltb (length s.buffer) 10000 then record s { buffer = taken ++ s.buffer } else s

  -- what `flushBuffer` does with the lines that it has taken
  settle_flush : List RawLogLine → Result (Unit {0}) × W → Watcher W
  settle_flush taken (ok _, w) = record { buffer = []; world = w }
  settle_flush taken (err e, w) = give_back taken (record { buffer = []; world = w })

  flush_taken : List RawLogLine → Watcher W → Watcher W
  flush_taken [] s = s
  flush_taken (raw ∷ raws) s =
      settle_flush (raw ∷ raws) (process_and_ship platform (raw ∷ raws) s.world)

  pub flush_buffer : Watcher W → Watcher W
  unfolding settle_flush flush_taken
  flush_buffer s = flush_taken s.buffer s
