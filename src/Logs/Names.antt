-- ===== src/Logs/Names.antt =====
-- The name of the service that wrote a log file: extractServiceName of
-- apps/logger/src/log-processor/log-processor.service.ts.
use Prim.Native.Char.{Char, code}
use plus_api.Common.{
  String, Bool, false, not, ◌&&◌, ◌||◌, Option, none, some, List, [], ◌∷◌, reverse, str_eq, ◌==◌,
  if◌then◌else◌,
}
use plus_api.Common.Text.{join_first}

-- `source.includes('/')` and `source.split('/')`
unfoldable pub has_slash : String → Bool
has_slash String.[] = false
has_slash (String.◌∷◌ c s) = code c == b'/' || has_slash s

unfoldable pub split_slash : String → List String
split_slash String.[] = String.[] ∷ []
split_slash (String.◌∷◌ c s) =
    let rest = split_slash s in if code c == b'/' then String.[] ∷ rest else join_first c rest

-- The regular expression `/\\.log$/` asks for a backslash, any character but a line break, and "log".
abbrev pub is_log_end : Char → String → Bool
is_log_end c (String.◌∷◌ d rest) =
    code c == 92 && not (code d == 10) && not (code d == 13) && str_eq rest "log"
is_log_end c String.[] = false

-- `replace(/\\.log$/, '')`
unfoldable pub strip_log : String → String
strip_log String.[] = String.[]
strip_log (String.◌∷◌ c s) =
    let rest = strip_log s in if is_log_end c s then String.[] else String.◌∷◌ c rest

-- the loop over the parts, from the last one on
unfoldable pub find_service : List String → Option String
find_service [] = none
find_service (p ∷ ps) =
    let rest = find_service ps in
    let name = strip_log p in
    if not (str_eq p "") && not (str_eq p "logs") && not (str_eq p "log")
    then (if not (str_eq name "app") && not (str_eq name "application") then some name else rest)
    else rest

abbrev pub or_unknown : String → String
or_unknown s = if str_eq s "" then "unknown" else s

abbrev pub service_or : String → Option String → String
service_or source none = or_unknown (strip_log source)
service_or source (some name) = name

unfoldable pub extract_service_name : String → String
extract_service_name source =
    service_or source
      (if has_slash source then find_service (reverse (split_slash source)) else none)
