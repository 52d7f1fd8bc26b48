-- ===== src/Saga/StateStore/Updated.antt =====
-- What `get` returns after `update`, whether or not the store held the saga before.
use plus_api.Common.{
  ℕ, ◌+◌, String, ◌≡◌, false, ◌∙◌, Option, none, some, [], ltb, str_eq, arith, eq_refl,
  if◌then◌else◌,
}
use plus_api.Common.Dict.{lookup, insert, lookup-insert}
use plus_api.Common.Dict.Keys.{IsMap}
use plus_api.Saga.StateStore.{
  Field, date, Object, Store, StoredState, ttl_ms, spread, save, get, update, update_stored,
}
use plus_api.Saga.StateStore.Laws.{unexpired, get-lookup, lookup-spread}

module _ {V : Type 0} where
  -- the object that stands in the store
  pub updated_object : Option (StoredState V) → Object V → ℕ → Object V
  updated_object none state now = insert "savedAt" (date now) (spread [] state)
  updated_object (some stored) state now =
      insert "updatedAt" (date now) (spread (spread [] stored.state) state)

  unexpired_updated :
      (held : Option (StoredState V)) (id : String) (state : Object V) (now t : ℕ) (s : Store V)
      → unexpired t (lookup id (update_stored held id state now s))
        ≡ (if ltb (now + ttl_ms) t then none else some (updated_object held state now))
  unfolding update_stored updated_object save
  unexpired_updated none id state now t s = simp (lookup-insert, eq_refl)
  unexpired_updated (some stored) id state now t s = simp (lookup-insert, eq_refl)

  pub get-updated :
      (id : String) (state : Object V) (now t : ℕ) (s : Store V)
      → (get id t (update id state now s)).0
        ≡ (if ltb (now + ttl_ms) t then none else some (updated_object (lookup id s) state now))
  unfolding update
  get-updated id state now t s =
      get-lookup id t (update id state now s) ∙ unexpired_updated (lookup id s) id state now t s

  -- A field of the new state is there, where it is not one of the two that the store adds.
  pub lookup-updated_object :
      (k : String) (v : Field V) (held : Option (StoredState V)) (state : Object V) (now : ℕ)
      → IsMap state
      → lookup k state ≡ some v
      → str_eq "savedAt" k ≡ false
      → str_eq "updatedAt" k ≡ false
      → lookup k (updated_object held state now) ≡ some v
  unfolding updated_object
  lookup-updated_object k v none state now m is saved updated =
      ground
        (arith, lookup-insert "savedAt" k (date now) (spread [] state), lookup-spread k [] state m)
  lookup-updated_object k v (some stored) state now m is saved updated = ground (
    arith,
    lookup-insert "updatedAt" k (date now) (spread (spread [] stored.state) state),
    lookup-spread k (spread [] stored.state) state m,
  )
