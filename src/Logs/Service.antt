-- ===== src/Logs/Service.antt =====
-- The service name that is made of a log file's path.
use Prim.Native.Char.{Char, code}
use Prim.Native.String.{◌++◌ as concat}
use text.Mathlib.TextLemmas.{nil-append, cons-append}
use mathlib.Core.List.{reverse-append}
use plus_api.Common.{
  String, ◌≡◌, ◌≢◌, ◌∙◌, refl, sym, ap, inl, inr, Bool, true, false, ◌||◌, some, List, [], ◌∷◌,
  ◌++◌, reverse, str_eq, eq_iff, ◌==◌, arith, Bool-cases,
}
use plus_api.Common.Text.{join_first, Every}
use plus_api.Logs.Names.{
  has_slash, split_slash, is_log_end, strip_log, find_service, service_or, extract_service_name,
}

-- no slash and no backslash
abbrev pub IsPlain : String → Type 0
IsPlain = Every (λ c. (code c ≢ b'/') × (code c ≢ 92))

not_log_end : (c : Char) (s : String) → code c ≢ 92 → is_log_end c s ≡ false
not_log_end c String.[] h = refl
not_log_end c (String.◌∷◌ d s) h = ground arith

-- A slash in front is split off.
split_slash-slash :
    (c : Char) (s : String)
    → (code c == b'/') ≡ true
    → split_slash (String.◌∷◌ c s) ≡ String.[] ∷ split_slash s
unfolding split_slash
split_slash-slash c s is = rw is refl

split_slash-other :
    (c : Char) (s : String)
    → (code c == b'/') ≡ false
    → split_slash (String.◌∷◌ c s) ≡ join_first c (split_slash s)
unfolding split_slash
split_slash-other c s is = rw is refl

not_slash : (c : Char) → code c ≢ b'/' → (code c == b'/') ≡ false
not_slash c h = ground arith

strip_log-IsPlain : (s : String) → IsPlain s → strip_log s ≡ s
unfolding strip_log
strip_log-IsPlain String.[] h = refl
strip_log-IsPlain (String.◌∷◌ c s) h =
    rw (not_log_end c s h.0.1) (ap (String.◌∷◌ c) (strip_log-IsPlain s h.1))

split_slash-IsPlain : (s : String) → IsPlain s → split_slash s ≡ s ∷ []
unfolding split_slash
split_slash-IsPlain String.[] h = refl
split_slash-IsPlain (String.◌∷◌ c s) h =
    rw (not_slash c h.0.0) (ap (join_first c) (split_slash-IsPlain s h.1))

abbrev slash : Char
slash = "/"

slash-concat : (s : String) → concat "/" s ≡ String.◌∷◌ slash s
slash-concat s = cons-append slash String.[] s ∙ ap (String.◌∷◌ slash) (nil-append s)

or_true : (b : Bool) → (b || true) ≡ true
or_true true = refl
or_true false = refl

has_slash-concat : (dir base : String) → has_slash (concat dir (concat "/" base)) ≡ true
unfolding has_slash
has_slash-concat String.[] base = ap has_slash (nil-append (concat "/" base) ∙ slash-concat base)
has_slash-concat (String.◌∷◌ c s) base =
    ap has_slash (cons-append c s (concat "/" base))
    ∙ ap (λ b. code c == b'/' || b) (has_slash-concat s base)
    ∙ or_true (code c == b'/')

split_slash-cons : (s : String) → (p : String) × (ps : List String) × (split_slash s ≡ p ∷ ps)
unfolding split_slash
split_slash-cons String.[] = (String.[], [], refl)
split_slash-cons (String.◌∷◌ c s) = elim (Bool-cases (code c == b'/')) [
  | inl is ↦ (String.[], split_slash s, split_slash-slash c s is)
  | inr no_slash ↦
      let (p, ps, parts) = split_slash-cons s in
      (String.◌∷◌ c p, ps, split_slash-other c s no_slash ∙ ap (join_first c) parts)
]

join_first-append :
    (c : Char) (xs ys : List String) (p : String) (ps : List String)
    → xs ≡ p ∷ ps
    → join_first c (xs ++ ys) ≡ join_first c xs ++ ys
join_first-append c [] ys p ps is = cc
join_first-append c (x ∷ xs) ys p ps is = refl

split_slash-concat :
    (dir base : String)
    → IsPlain base
    → split_slash (concat dir (concat "/" base)) ≡ split_slash dir ++ base ∷ []
unfolding split_slash
split_slash-concat String.[] base h =
    ap split_slash (nil-append (concat "/" base) ∙ slash-concat base)
    ∙ ap (λ l. String.[] ∷ l) (split_slash-IsPlain base h)
split_slash-concat (String.◌∷◌ c s) base h =
    ap split_slash (cons-append c s (concat "/" base)) ∙ elim (Bool-cases (code c == b'/')) [
      | inl is ↦
          split_slash-slash c (concat s (concat "/" base)) is
          ∙ ap (λ l. String.[] ∷ l) (split_slash-concat s base h)
          ∙ sym (ap (λ l. l ++ base ∷ []) (split_slash-slash c s is))
      | inr no_slash ↦
          let (p, ps, parts) = split_slash-cons s in
          split_slash-other c (concat s (concat "/" base)) no_slash
          ∙ ap (join_first c) (split_slash-concat s base h)
          ∙ join_first-append c (split_slash s) (base ∷ []) p ps parts
          ∙ sym (ap (λ l. l ++ base ∷ []) (split_slash-other c s no_slash))
    ]

-- a name that the loop takes
abbrev pub IsTaken : String → Type 0
IsTaken s = (s ≢ "") × (s ≢ "logs") × (s ≢ "log") × (s ≢ "app") × (s ≢ "application")

unequal : (s t : String) → s ≢ t → str_eq s t ≡ false
unequal s t h = ground (arith, eq_iff s t)

find_service-taken :
    (base : String) (parts : List String)
    → IsPlain base
    → IsTaken base
    → find_service (base ∷ parts) ≡ some base
unfolding find_service
find_service-taken base parts plain taken =
    rw
      (
        strip_log-IsPlain base plain,
        unequal base "" taken.0,
        unequal base "logs" taken.1,
        unequal base "log" taken.2,
        unequal base "app" taken.3,
        unequal base "application" taken.4,
      )
      refl

-- The service of a path is its last part as it stands, with its ending ".log", if that part has no
-- backslash and is none of "", "logs", "log", "app" and "application"; the directories do not matter.
pub extract_service_name-IsTaken :
    (dir base : String)
    → IsPlain base
    → IsTaken base
    → extract_service_name (concat dir (concat "/" base)) ≡ base
unfolding extract_service_name
extract_service_name-IsTaken dir base plain taken = rw (has_slash-concat dir base) (
    ap (λ l. service_or (concat dir (concat "/" base)) (find_service (reverse l)))
      (split_slash-concat dir base plain)
    ∙ ap (λ l. service_or (concat dir (concat "/" base)) (find_service l))
        (reverse-append (split_slash dir) (base ∷ []))
    ∙ ap (service_or (concat dir (concat "/" base)))
        (find_service-taken base (reverse (split_slash dir)) plain taken))
