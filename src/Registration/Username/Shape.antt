-- ===== src/Registration/Username/Shape.antt =====
-- The shape of a generated user name.
use Prim.Native.Char.{Char, code}
use Prim.Native.String.{char_at}
use plus_api.Common.{
  ℕ, zero, suc, ◌+◌, ◌-◌, ◌≤◌, ◌<◌, String, ◌≡◌, ◌≢◌, ◌↔◌, ◌∙◌, inl, inr, refl, true, false, ◌==◌,
  str_eq, eq_iff, arith, Bool-cases,
}
use plus_api.Common.Lists.{passes_below, passes_below_sound}
use plus_api.Common.Text.{length, Every}
use plus_api.Common.Result.{ok, err}
use plus_api.Registration.Username.{
  before_at, in_range, is_allowed, keep_allowed, letters, lower, to_lower_case, take, clean,
  no_username, generate_username, IsUsernameChar,
}

letters_table : passes_below (λ n. code (char_at letters n) == n + b'a') 26 ≡ true
unfolding passes_below
letters_table = refl

code-letters : (n : ℕ) → n < 26 → code (char_at letters n) ≡ n + b'a'
code-letters n h =
    ground
      (arith, passes_below_sound (λ k. code (char_at letters k) == k + b'a') 26 n letters_table h)

lower-IsUsernameChar : (c : Char) → is_allowed c ≡ true → IsUsernameChar (lower c)
unfolding lower
lower-IsUsernameChar c h = elim (Bool-cases (in_range b'A' b'Z' c)) [
  | inl up ↦ rw (up) (ground (arith, code-letters (code c - b'A')))
  | inr other ↦ rw (other) (ground arith)
]

Every-lower : (s : String) → Every IsUsernameChar (to_lower_case (keep_allowed s))
unfolding to_lower_case keep_allowed
Every-lower String.[] = tt
Every-lower (String.◌∷◌ c s) = elim (Bool-cases (is_allowed c)) [
  | inl allowed ↦ rw allowed (lower-IsUsernameChar c allowed, Every-lower s)
  | inr other ↦ rw other (Every-lower s)
]

Every-take : (P : Char → Type 0) (n : ℕ) (s : String) → Every P s → Every P (take n s)
unfolding take
Every-take P zero s h = tt
Every-take P (suc n) String.[] h = tt
Every-take P (suc n) (String.◌∷◌ c s) h = (h.0, Every-take P n s h.1)

length-take : (n : ℕ) (s : String) → length (take n s) ≤ n
unfolding take
length-take zero s = omega arith
length-take (suc n) String.[] = omega arith
length-take (suc n) (String.◌∷◌ c s) = omega (arith, length-take n s)

-- nothing of the text is kept
abbrev pub NoneAllowed : String → Type 0
NoneAllowed = Every (λ c. is_allowed c ≡ false)

abbrev cleaned : String → String
cleaned s = take 30 (to_lower_case (keep_allowed s))

cleaned_empty : (s : String) → NoneAllowed s → cleaned s ≡ ""
unfolding take to_lower_case keep_allowed
cleaned_empty String.[] h = refl
cleaned_empty (String.◌∷◌ c s) h = rw (h.0) (cleaned_empty s h.1)

empty_none : (s : String) → cleaned s ≡ "" → NoneAllowed s
unfolding take to_lower_case keep_allowed
empty_none String.[] h = tt
empty_none (String.◌∷◌ c s) h = elim (Bool-cases (is_allowed c)) [
  | inl allowed ↦ let h' = rw allowed at h in cc
  | inr other ↦ (other, empty_none s (rw other at h))
]

generated :
    (email name : String)
    → generate_username email ≡ ok name
    → (name ≢ "") × (length name ≤ 30) × Every IsUsernameChar name
unfolding generate_username clean
generated email name made = elim (Bool-cases (str_eq (clean email) "")) [
  | inl none_left ↦ let made' = rw none_left at made in cc
  | inr left ↦
      let made' = rw left at made in
      let e : cleaned (before_at email) ≡ name = cc in
      (
        λ blank. let twice = (eq_iff (cleaned (before_at email)) "").1 (e ∙ blank) in cc,
        rw (← e) (length-take 30 _),
        rw (← e) (Every-take IsUsernameChar 30 _ (Every-lower (before_at email))),
      )
]

not_generated :
    (email : String) → (generate_username email ≡ err no_username) ↔ NoneAllowed (before_at email)
unfolding generate_username clean
not_generated email = (
  λ failed. elim (Bool-cases (str_eq (clean email) "")) [
    | inl none_left ↦ empty_none (before_at email) ((eq_iff (clean email) "").0 none_left)
    | inr left ↦ let failed' = rw left at failed in cc
  ],
  λ none_allowed.
      rw ((eq_iff (clean email) "").1 (cleaned_empty (before_at email) none_allowed)) refl,
)

-- A generated user name has 1 to 30 characters, all of them lower-case letters, digits, `_` or `-`;
-- and an address gives no user name exactly when no character before its first `@` is allowed.
pub generate_username_shape :
    (email : String)
    → ((name : String)
        → generate_username email ≡ ok name
        → (name ≢ "") × (length name ≤ 30) × Every IsUsernameChar name)
      × ((generate_username email ≡ err no_username) ↔ NoneAllowed (before_at email))
generate_username_shape email = (generated email, not_generated email)
