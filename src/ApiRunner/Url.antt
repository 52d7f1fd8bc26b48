-- ===== src/ApiRunner/Url.antt =====
-- The address of a request: resolveUrl of plugins/ai-agent-testing/src/infrastructure/runner/
-- api-runner.ts.
use Prim.Native.Char.{code}
use Prim.Native.String.{◌++◌ as concat}
use text.Mathlib.Text.{starts_with}
use plus_api.Common.{String, Bool, ◌&&◌, ◌||◌, Option, none, some, str_eq, ◌==◌, if◌then◌else◌}

-- `replace(/\/$/, '')` and `replace(/^\//, '')`
unfoldable pub without_last_slash : String → String
without_last_slash String.[] = String.[]
without_last_slash (String.◌∷◌ c s) =
    let rest = without_last_slash s in
    if code c == b'/' && str_eq s "" then String.[] else String.◌∷◌ c rest

unfoldable pub without_first_slash : String → String
without_first_slash String.[] = String.[]
without_first_slash (String.◌∷◌ c s) = if code c == b'/' then s else String.◌∷◌ c s

abbrev pub is_absolute : String → Bool
is_absolute target = starts_with target "http://" || starts_with target "https://"

abbrev pub join_base : Option String → String → String
join_base none target = target
join_base (some base) target =
    if str_eq base ""
    then target
    else concat (without_last_slash base) (concat "/" (without_first_slash target))

unfoldable pub resolve_url : String → Option String → String
resolve_url target base_url = if is_absolute target then target else join_base base_url target
