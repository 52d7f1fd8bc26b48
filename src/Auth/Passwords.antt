-- ===== src/Auth/Passwords.antt =====
-- The strength of a password: validatePasswordStrength of apps/core/src/auth/password.service.ts.
use Prim.Native.Char.{Char, code}
use plus_api.Common.{
  ℕ, ◌+◌, String, ◌≡◌, ◌≢◌, ◌↔◌, Bool, true, false, ◌&&◌, ◌||◌, List, [], ◌∷◌, ◌++◌, arith, leb,
  ◌==◌, ◌≤◌, if◌then◌else◌,
}
use plus_api.Common.Lists.{length, member}
use plus_api.Common.Text.{Every}
use plus_api.Common.{◌<◌, refl, not, inl, inr, Bool-cases}

pub record Strength : Type 0 where
  pub is_valid : Bool
  pub score : ℕ
  pub feedback : List String

abbrev in_range : ℕ → ℕ → Char → Bool
in_range lo hi c = leb lo (code c) && leb (code c) hi

abbrev is_lowercase : Char → Bool
is_lowercase = in_range b'a' b'z'

abbrev is_uppercase : Char → Bool
is_uppercase = in_range b'A' b'Z'

abbrev is_digit : Char → Bool
is_digit = in_range b'0' b'9'

-- one of the characters of a text
unfoldable pub is_one_of : String → Char → Bool
is_one_of String.[] c = false
is_one_of (String.◌∷◌ d s) c = code d == code c || is_one_of s c

abbrev is_special : Char → Bool
is_special = is_one_of "!@#$%^&*()_+-=[]{}|;:,.<>?"

-- `/[…]/.test(password)`
unfoldable pub has_char : (Char → Bool) → String → Bool
has_char test String.[] = false
has_char test (String.◌∷◌ c s) = test c || has_char test s

-- `password.length`, in UTF-16 units
unfoldable pub utf16_length : String → ℕ
utf16_length String.[] = 0
utf16_length (String.◌∷◌ c s) = (if leb 65536 (code c) then 2 else 1) + utf16_length s

-- one of the five checks: a point, or its line of feedback
abbrev pub check : Bool → String → ℕ × List String → ℕ × List String
check true line (score, feedback) = (score + 1, feedback)
check false line (score, feedback) = (score, feedback ++ line ∷ [])

-- the lines of feedback
abbrev pub too_short : String
too_short = "Password must be at least 8 characters long"

abbrev pub no_lowercase : String
no_lowercase = "Password must contain at least one lowercase letter"

abbrev pub no_uppercase : String
no_uppercase = "Password must contain at least one uppercase letter"

abbrev pub no_number : String
no_number = "Password must contain at least one number"

abbrev pub no_special : String
no_special = "Password must contain at least one special character"

abbrev pub points : String → ℕ × List String
points password = check (has_char is_special password) no_special (
    check (has_char is_digit password) no_number (
      check (has_char is_uppercase password) no_uppercase (
        check (has_char is_lowercase password) no_lowercase
          (check (leb 8 (utf16_length password)) too_short (0, [])))))

unfoldable pub validate_password_strength : String → Strength
validate_password_strength password =
    let (score, feedback) = points password in
    record { is_valid = leb 4 score; score = score; feedback = feedback }

-- The independent reading of the five requirements: letters and digits by their codes, and as special
-- characters every printable one of ASCII but letters, digits and `"`, `'`, `/`, `\`, the grave
-- accent and `~`.
abbrev pub IsLowercase : Char → Type 0
IsLowercase c = (97 ≤ code c) × (code c ≤ 122)

abbrev pub IsUppercase : Char → Type 0
IsUppercase c = (65 ≤ code c) × (code c ≤ 90)

abbrev pub IsDigit : Char → Type 0
IsDigit c = (48 ≤ code c) × (code c ≤ 57)

abbrev pub IsSpecial : Char → Type 0
IsSpecial c =
    (33 ≤ code c)
    × (code c ≤ 125)
    × (code c ≢ 34)
    × (code c ≢ 39)
    × (code c ≢ 47)
    × (code c ≢ 92)
    × (code c ≢ 96)
    × (IsLowercase c → ⊥)
    × (IsUppercase c → ⊥)
    × (IsDigit c → ⊥)

lower_lem : (c : Char) → (is_lowercase c ≡ true) ↔ IsLowercase c
lower_lem c = ground arith

upper_lem : (c : Char) → (is_uppercase c ≡ true) ↔ IsUppercase c
upper_lem c = ground arith

digit_lem : (c : Char) → (is_digit c ≡ true) ↔ IsDigit c
digit_lem c = ground arith

special_lem : (c : Char) → (is_special c ≡ true) ↔ IsSpecial c
unfolding is_one_of
special_lem c = ground arith

-- A text without a character of a class.
has_char-Every :
    (test : Char → Bool) (P : Char → Type 0)
    → ((c : Char) → (test c ≡ true) ↔ P c)
    → (s : String) → (has_char test s ≡ false) ↔ Every (λ c. P c → ⊥) s
unfolding has_char
has_char-Every test P reads String.[] = ((λ h. tt), (λ h. refl))
has_char-Every test P reads (String.◌∷◌ c s) =
    let (there, back) = has_char-Every test P reads s in
    elim (Bool-cases (test c)) [
      | inl is ↦ rw is ((λ h. cc), (λ (absent, rest). absurd (absent ((reads c).0 is))))
      | inr isnt ↦
          rw isnt
            ((λ h. ((λ p. let is = (reads c).1 p in cc), there h)), (λ (absent, rest). back rest))
    ]

-- Which lines five checks give, and how many.
five_checks :
    (a b c d e : Bool)
    → let (score, feedback) = check a no_special (
        check b no_number
          (check c no_uppercase (check d no_lowercase (check e too_short (0, []))))) in
      (member too_short feedback ≡ not e)
      × (member no_lowercase feedback ≡ not d)
      × (member no_uppercase feedback ≡ not c)
      × (member no_number feedback ≡ not b)
      × (member no_special feedback ≡ not a)
      × (score + length feedback ≡ 5)
      × (leb 4 score ≡ leb (length feedback) 1)
unfolding member
five_checks a b c d e = ground arith

told : {P : Type 0} (l has : Bool) → l ≡ not has → (has ≡ false) ↔ P → (l ≡ true) ↔ P
told l true is h = ((λ t. cc), (λ p. let f = h.1 p in cc))
told l false is h = ((λ t. h.0 refl), (λ p. is))

short_lem : (n : ℕ) → (leb 8 n ≡ false) ↔ (n < 8)
short_lem n = ground arith

-- The feedback has the line on the length exactly if the password has less than 8 UTF-16 units, and each
-- other line exactly if no character of its class stands in the password; the score and the lines
-- are five together, and the password is valid exactly if there is at most one line.
pub validate_password_strength_lem :
    (password : String)
    → let s = validate_password_strength password in
      ((member too_short s.feedback ≡ true) ↔ (utf16_length password < 8))
      × ((member no_lowercase s.feedback ≡ true) ↔ Every (λ c. IsLowercase c → ⊥) password)
      × ((member no_uppercase s.feedback ≡ true) ↔ Every (λ c. IsUppercase c → ⊥) password)
      × ((member no_number s.feedback ≡ true) ↔ Every (λ c. IsDigit c → ⊥) password)
      × ((member no_special s.feedback ≡ true) ↔ Every (λ c. IsSpecial c → ⊥) password)
      × (s.score + length s.feedback ≡ 5)
      × (s.is_valid ≡ leb (length s.feedback) 1)
unfolding validate_password_strength
validate_password_strength_lem password =
    let a = has_char is_special password in
    let b = has_char is_digit password in
    let c = has_char is_uppercase password in
    let d = has_char is_lowercase password in
    let e = leb 8 (utf16_length password) in
    let (short, lower, upper, number, special, sum, valid) = five_checks a b c d e in
    (
      told _ e short (short_lem (utf16_length password)),
      told _ d lower (has_char-Every is_lowercase IsLowercase lower_lem password),
      told _ c upper (has_char-Every is_uppercase IsUppercase upper_lem password),
      told _ b number (has_char-Every is_digit IsDigit digit_lem password),
      told _ a special (has_char-Every is_special IsSpecial special_lem password),
      sum,
      valid,
    )
