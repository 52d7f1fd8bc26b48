-- ===== src/Loaders/Batch.antt =====
-- A batch against loading the keys one by one.
use mathlib.Core.List.{append_assoc, append-nil}
use plus_api.Common.{
  String, ◌≡◌, ◌∙◌, refl, sym, ap, inl, inr, Bool, true, Option, none, some, List, [], ◌∷◌, ◌++◌,
  map, str_eq, eq_iff, arith, Bool-cases, if◌then◌else◌,
}
use plus_api.Common.Lists.{keep, member, map-member}
use plus_api.Common.Dict.{Dict, lookup, insert, lookup-insert}
use plus_api.Common.Dict.Multi.{list_or_empty, push_at, lookup-push_at}
use plus_api.Common.Result.{ok, Async, settle, pure, throw}
use plus_api.Loaders.{from_entries, group_rows, batch_one, batch_many}

module _ {R : Type 0} (key : R → String) where
  -- the first row of a key
  abbrev pub find_row : String → List R → Option R
  find_row k [] = none
  find_row k (r ∷ rs) = if str_eq (key r) k then some r else find_row k rs

  -- No two rows have the same key.
  abbrev pub AreDistinct : List R → Type 0
  AreDistinct [] = Unit
  AreDistinct (r ∷ rs) = (find_row (key r) rs ≡ none) × AreDistinct rs

  abbrev or_else_row : Option R → Option R → Option R
  or_else_row none o = o
  or_else_row (some r) o = some r

  lookup-from_entries :
      (k : String) (m : Dict R) (rows : List R)
      → AreDistinct rows
      → lookup k (from_entries key m rows) ≡ or_else_row (find_row k rows) (lookup k m)
  unfolding from_entries
  lookup-from_entries k m [] h = refl
  lookup-from_entries k m (r ∷ rs) h =
      lookup-from_entries k (insert (key r) r m) rs h.1
      ∙ ground (arith, lookup-insert (key r) k r m, eq_iff (key r) k)

  or_else_row-none : (k : String) (o : Option R) → or_else_row o (lookup k []) ≡ o
  unfolding lookup
  or_else_row-none k none = refl
  or_else_row-none k (some r) = refl

  find_row-keep :
      (k : String) (ks : List String) (rows : List R)
      → member k ks ≡ true
      → find_row k (keep (λ r. member (key r) ks) rows) ≡ find_row k rows
  unfolding keep
  find_row-keep k ks [] h = refl
  find_row-keep k ks (r ∷ rs) h = ground (arith, find_row-keep k ks rs h, eq_iff (key r) k)

  keep-none :
      (k : String) (test : R → Bool) (rows : List R)
      → find_row k rows ≡ none
      → find_row k (keep test rows) ≡ none
  unfolding keep
  keep-none k test [] h = refl
  keep-none k test (r ∷ rs) h = ground (arith, keep-none k test rs)

  keep-AreDistinct :
      (test : R → Bool) (rows : List R) → AreDistinct rows → AreDistinct (keep test rows)
  unfolding keep
  keep-AreDistinct test [] h = tt
  keep-AreDistinct test (r ∷ rs) h = elim (Bool-cases (test r)) [
    | inl kept ↦ rw kept (keep-none (key r) test rs h.0, keep-AreDistinct test rs h.1)
    | inr left ↦ rw left (keep-AreDistinct test rs h.1)
  ]

  lookup-group_rows :
      (k : String) (m : Dict (List R)) (rows : List R)
      → list_or_empty (lookup k (group_rows key m rows))
        ≡ list_or_empty (lookup k m) ++ keep (λ r. str_eq (key r) k) rows
  unfolding group_rows keep
  lookup-group_rows k m [] = sym (append-nil _)
  lookup-group_rows k m (r ∷ rs) =
      lookup-group_rows k (push_at (key r) r m) rs
      ∙ ap (λ l. l ++ keep (λ r. str_eq (key r) k) rs) (lookup-push_at (key r) k r m)
      ∙ elim (Bool-cases (str_eq (key r) k)) [
        | inl same ↦ rw same (append_assoc (list_or_empty (lookup k m)) (r ∷ []) _)
        | inr other ↦ rw other (rw (append-nil (list_or_empty (lookup k m))) refl)
      ]

  lookup-rows :
      (k : String) (rows : List R)
      → list_or_empty (lookup k (group_rows key [] rows)) ≡ keep (λ r. str_eq (key r) k) rows
  unfolding lookup
  lookup-rows k rows = lookup-group_rows k [] rows

  keep-twice :
      (k : String) (ks : List String) (rows : List R)
      → member k ks ≡ true
      → keep (λ r. str_eq (key r) k) (keep (λ r. member (key r) ks) rows)
        ≡ keep (λ r. str_eq (key r) k) rows
  unfolding keep
  keep-twice k ks [] h = refl
  keep-twice k ks (r ∷ rs) h = ground (arith, keep-twice k ks rs h, eq_iff (key r) k)

  module _ {W : Type 0} (find_many : List String → Async W (List R)) (table : W → List R) where
    -- The query gives the rows of the table that have one of the keys, and changes nothing.
    abbrev pub IsSelection : Type 0
    IsSelection =
        (ks : List String) (w : W)
        → find_many ks w ≡ (ok (keep (λ r. member (key r) ks) (table w)), w)

    -- If the query selects by a key that no two rows share, a batch gives, for each of the asked keys
    -- at its place, the row of that key, or null where there is none.
    pub batch_one_lem :
        IsSelection
        → (ks : List String) (w : W) → AreDistinct (table w)
        → batch_one key find_many ks w ≡ (ok (map (λ k. find_row k (table w)) ks), w)
    unfolding batch_one
    batch_one_lem selects ks w distinct =
        ap
          (λ x.
            settle x.0 (λ rows. pure (map (λ k. lookup k (from_entries key [] rows)) ks)) throw x.1)
          (selects ks w)
        ∙ ap (λ l. (ok l, w))
            (map-member
              (λ k. lookup k (from_entries key [] (keep (λ r. member (key r) ks) (table w))))
              (λ k. find_row k (table w)) ks
              (λ k asked.
                lookup-from_entries k [] _ (keep-AreDistinct _ (table w) distinct)
                ∙ or_else_row-none k _
                ∙ find_row-keep k ks (table w) asked))

    -- If the query selects by a key, a batch gives, for each of the asked keys at its place, all rows
    -- of that key in the table's order.
    pub batch_many_lem :
        IsSelection
        → (ks : List String) (w : W)
        → batch_many key find_many ks w
          ≡ (ok (map (λ k. keep (λ r. str_eq (key r) k) (table w)) ks), w)
    unfolding batch_many
    batch_many_lem selects ks w =
        ap
          (λ x.
            settle x.0
              (λ rows. pure (map (λ k. list_or_empty (lookup k (group_rows key [] rows))) ks)) throw
              x.1)
          (selects ks w)
        ∙ ap (λ l. (ok l, w))
            (map-member
              (λ k.
                list_or_empty
                  (lookup k (group_rows key [] (keep (λ r. member (key r) ks) (table w)))))
              (λ k. keep (λ r. str_eq (key r) k) (table w)) ks
              (λ k asked. lookup-rows k _ ∙ keep-twice k ks (table w) asked))
