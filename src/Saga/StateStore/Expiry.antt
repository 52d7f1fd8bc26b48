-- ===== src/Saga/StateStore/Expiry.antt =====
-- The cleanup is not seen by `get`.
use plus_api.Common.{
  ℕ, ◌≤◌, String, ◌≡◌, refl, Bool, false, Option, none, some, [], ◌∷◌, arith, ltb, eq_iff,
  if◌then◌else◌, ◌∙◌, ap,
}
use plus_api.Common.Dict.{lookup, erase, lookup-erase}
use plus_api.Common.Dict.Keys.{IsMap}
use plus_api.Saga.StateStore.{
  Store, StoredState, is_expired, get, cleanup_each, cleanup_expired_states,
}
use plus_api.Saga.StateStore.Laws.{unexpired, get-lookup}

module _ {V : Type 0} where
  -- an entry that the cleanup at a time deletes
  abbrev is_stale : ℕ → Option (StoredState V) → Bool
  is_stale now none = false
  is_stale now (some stored) = ltb stored.expires_at now

  lookup-cleanup_each :
      (entries : Store V) (now : ℕ) (s : Store V) (j : String)
      → IsMap entries
      → lookup j (cleanup_each entries now s)
        ≡ (if is_stale now (lookup j entries) then none else lookup j s)
  unfolding cleanup_each lookup is_expired
  lookup-cleanup_each [] now s j h = refl
  lookup-cleanup_each ((id, stored) ∷ entries) now s j h = ground (
    arith,
    lookup-cleanup_each entries now s j h.1,
    lookup-cleanup_each entries now (erase id s) j h.1,
    lookup-erase id j s,
    eq_iff id j,
  )

  unexpired-stale :
      (o : Option (StoredState V)) (now t : ℕ)
      → now ≤ t
      → unexpired t (if is_stale now o then none else o) ≡ unexpired t o
  unexpired-stale none now t h = refl
  unexpired-stale (some stored) now t h = ground arith

  -- In a store whose saga ids are all different, a cleanup changes no answer of `get` from then on.
  pub get-cleanup :
      (s : Store V) (j : String) (now t : ℕ)
      → IsMap s
      → now ≤ t
      → (get j t (cleanup_expired_states now s)).0 ≡ (get j t s).0
  unfolding cleanup_expired_states
  get-cleanup s j now t h later = simp (get-lookup) (
      ap (unexpired t) (lookup-cleanup_each s now s j h) ∙ unexpired-stale (lookup j s) now t later)
