-- ===== src/Registration/Username.antt =====
-- The user name that the registration makes of an email address: `generateUsername` of
-- apps/core/src/saga/user-registration.saga.ts.
pub mod Shape
use Prim.Native.Char.{Char, code}
use Prim.Native.String.{char_at}
use plus_api.Common.{
  ℕ, zero, suc, ◌-◌, ◌≤◌, String, ◌≡◌, ◌⊎◌, refl, Bool, ◌&&◌, ◌||◌, leb, ◌==◌, str_eq,
  if◌then◌else◌,
}
use plus_api.Common.Result.{Result, ok, err, Error, coded_error}

-- `email.split('@')[0]`
pub before_at : String → String
before_at String.[] = ""
before_at (String.◌∷◌ c s) =
    let rest = before_at s in if code c == b'@' then "" else String.◌∷◌ c rest

abbrev pub in_range : ℕ → ℕ → Char → Bool
in_range lo hi c = leb lo (code c) && leb (code c) hi

-- `[a-zA-Z0-9_-]`
abbrev pub is_allowed : Char → Bool
is_allowed c =
    in_range b'a' b'z' c
    || in_range b'A' b'Z' c
    || in_range b'0' b'9' c
    || code c == b'_'
    || code c == b'-'

-- `replace(/[^a-zA-Z0-9_-]/g, '')`
keep_allowed : String → String
keep_allowed String.[] = ""
keep_allowed (String.◌∷◌ c s) =
    let rest = keep_allowed s in if is_allowed c then String.◌∷◌ c rest else rest

abbrev pub letters : String
letters = "abcdefghijklmnopqrstuvwxyz"

-- `toLowerCase()` on what is left
lower : Char → Char
lower c = if in_range b'A' b'Z' c then char_at letters (code c - b'A') else c

to_lower_case : String → String
to_lower_case String.[] = ""
to_lower_case (String.◌∷◌ c s) = String.◌∷◌ (lower c) (to_lower_case s)

-- `substring(0, n)`
take : ℕ → String → String
take zero s = ""
take (suc n) String.[] = ""
take (suc n) (String.◌∷◌ c s) = String.◌∷◌ c (take n s)

abbrev pub no_username : Error
no_username =
    coded_error "Unable to generate valid username from email" "SAGA_UNABLE_TO_GENERATE_USERNAME"

clean : String → String
clean email = take 30 (to_lower_case (keep_allowed (before_at email)))

unfoldable pub generate_username : String → Result String
unfolding before_at keep_allowed lower to_lower_case take clean
generate_username email = if str_eq (clean email) "" then err no_username else ok (clean email)

-- a character that a user name may have
abbrev pub IsUsernameChar : Char → Type 0
IsUsernameChar c =
    ((b'a' ≤ code c) × (code c ≤ b'z'))
    ⊎ ((b'0' ≤ code c) × (code c ≤ b'9'))
    ⊎ (code c ≡ b'_')
    ⊎ (code c ≡ b'-')
