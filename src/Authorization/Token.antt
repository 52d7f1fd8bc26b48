-- ===== src/Authorization/Token.antt =====
-- The token in an `Authorization` header.
use Prim.Native.String.{◌++◌ as concat}
use text.Mathlib.Text.{starts_with}
use text.Mathlib.TextLemmas.{nil-append, cons-append}
use text.Mathlib.TextEquality.{starts_with_iff}
use plus_api.Common.{
  String, ◌≡◌, ap, sym, ◌∙◌, refl, inl, inr, Option, none, some, Bool-cases, arith,
}
use plus_api.Common.Text.{length}
use plus_api.Authorization.{bearer_token, substring}

substring-concat : (s t : String) → substring (concat s t) (length s) ≡ t
substring-concat String.[] t = simp (nil-append) refl
substring-concat (String.◌∷◌ c s) t = simp (cons-append) (substring-concat s t)

bearer_found :
    (rest header token : String)
    → concat "Bearer " rest ≡ header
    → bearer_token (some header) ≡ some token
    → some header ≡ some (concat "Bearer " token)
unfolding bearer_token
bearer_found rest header token is h =
    let cut = ap (λ x. substring x 7) (sym is) ∙ substring-concat "Bearer " rest in ground arith

-- A header that gives a token is `Bearer ` and the token.
pub bearer_token_lem :
    (header : Option String) (token : String)
    → bearer_token header ≡ some token
    → header ≡ some (concat "Bearer " token)
unfolding bearer_token
bearer_token_lem none token h = ground arith
bearer_token_lem (some header) token h = elim (Bool-cases (starts_with header "Bearer ")) [
  | inl starts ↦
      let (rest, is) = (starts_with_iff header "Bearer ").0 starts in
      bearer_found rest header token is h
  | inr other ↦ ground arith
]
