-- ===== src/Common/Dict/Multi.antt =====
-- A `Map` whose values are arrays, filled by `if (!map.has(key)) map.set(key, [])` and then
-- `map.get(key)!.push(value)`.
use mathlib.Core.List.{append-nil}
use mathlib.Core.Path.{◌≡◌, refl, sym, ap, ◌∙◌}
use mathlib.Core.Logic.{inl, inr}
use mathlib.Core.Option.{Option, none, some}
use mathlib.Core.List.{List, [], ◌∷◌, ◌++◌}
use native.Mathlib.Omega.{arith}
use Prim.Native.String.{String}
use plus_api.Common.Tests.{str_eq, eq_iff, if◌then◌else◌, Bool-cases}
use plus_api.Common.Dict.{Dict, lookup, insert, lookup-insert}

module _ {ℓ} {A : Type ℓ} where
  -- `map.get(key) || []`
  abbrev pub list_or_empty : Option (List A) → List A
  list_or_empty none = []
  list_or_empty (some xs) = xs

  -- `if (!map.has(key)) map.set(key, [])`
  abbrev pub ensure_entry : Option (List A) → String → Dict (List A) → Dict (List A)
  ensure_entry none k m = insert k [] m
  ensure_entry (some xs) k m = m

  unfoldable pub push_at : String → A → Dict (List A) → Dict (List A)
  push_at k x m =
      let m' = ensure_entry (lookup k m) k m in insert k (list_or_empty (lookup k m') ++ x ∷ []) m'

  lookup-ensure_entry :
      (k j : String) (o : Option (List A)) (m : Dict (List A))
      → lookup k m ≡ o
      → list_or_empty (lookup j (ensure_entry o k m)) ≡ list_or_empty (lookup j m)
  lookup-ensure_entry k j (some xs) m is = refl
  lookup-ensure_entry k j none m is = ground (arith, lookup-insert k j [] m, eq_iff k j)

  pub lookup-push_at :
      (k j : String) (x : A) (m : Dict (List A))
      → list_or_empty (lookup j (push_at k x m))
        ≡ list_or_empty (lookup j m) ++ (if str_eq k j then x ∷ [] else [])
  unfolding push_at
  lookup-push_at k j x m =
      let m' = ensure_entry (lookup k m) k m in
      let ensured = lookup-ensure_entry k j (lookup k m) m refl in
      let pushed = lookup-insert k j (list_or_empty (lookup k m') ++ x ∷ []) m' in
      elim (Bool-cases (str_eq k j)) [
        | inl same ↦
            let here = ap (λ i. list_or_empty (lookup i m')) ((eq_iff k j).0 same) in
            ap list_or_empty pushed ∙ rw same (ap (λ l. l ++ x ∷ []) (here ∙ ensured))
        | inr other ↦ ap list_or_empty pushed ∙ rw other (ensured ∙ sym (append-nil _))
      ]
