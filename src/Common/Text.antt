-- ===== src/Common/Text.antt =====
-- Texts in conditions, and texts as lists of characters.
use Prim.Native.Nat.{ℕ, suc}
use Prim.Native.Char.{Char}
use Prim.Native.String.{String}
use mathlib.Core.Bool.{Bool, true, false, not}
use mathlib.Core.Option.{Option, none, some}
use mathlib.Core.List.{List, [], ◌∷◌}
use plus_api.Common.Tests.{str_eq, if◌then◌else◌}

-- A text in a condition: `undefined` and `""` count as false.
abbrev pub is_truthy : Option String → Bool
is_truthy none = false
is_truthy (some s) = not (str_eq s "")

-- `a || b`
abbrev pub or_else : Option String → Option String → Option String
or_else a b = if is_truthy a then a else b

-- `a || b`, where `b` is there
abbrev pub or_text : Option String → String → String
or_text none b = b
or_text (some a) b = if str_eq a "" then b else a

-- what `indexOf` gives is an index
abbrev pub is_found : Option ℕ → Bool
is_found none = false
is_found (some n) = true

-- how many characters
abbrev pub length : String → ℕ
length String.[] = 0
length (String.◌∷◌ c s) = suc (length s)

-- `P` holds of every character.
abbrev pub Every : (Char → Type 0) → String → Type 0
Every P String.[] = Unit
Every P (String.◌∷◌ c s) = P c × Every P s

-- A character before the first part of a text that has been split.
abbrev pub join_first : Char → List String → List String
join_first c [] = String.◌∷◌ c String.[] ∷ []
join_first c (p ∷ ps) = String.◌∷◌ c p ∷ ps
