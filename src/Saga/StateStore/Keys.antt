-- ===== src/Saga/StateStore/Keys.antt =====
-- Every method keeps the store a `Map`: no saga id is listed twice.
use plus_api.Common.{ℕ, String, Option, none, some, [], ◌∷◌, arith}
use plus_api.Common.Dict.{lookup}
use plus_api.Common.Dict.Keys.{IsMap, insert-IsMap, erase-IsMap}
use plus_api.Saga.StateStore.{
  Object, Store, StoredState, save, get, update, update_stored, delete, clear, cleanup_each,
  cleanup_expired_states,
}

module _ {V : Type 0} where
  save-IsMap :
      (id : String) (state : Object V) (now : ℕ) (s : Store V)
      → IsMap s
      → IsMap (save id state now s)
  unfolding save
  save-IsMap id state now s h = insert-IsMap id _ s h

  get-IsMap : (id : String) (now : ℕ) (s : Store V) → IsMap s → IsMap (get id now s).1
  unfolding get
  get-IsMap id now s h = ground (arith, erase-IsMap id s h)

  update_stored-IsMap :
      (stored : Option (StoredState V)) (id : String) (state : Object V) (now : ℕ) (s : Store V)
      → IsMap s
      → IsMap (update_stored stored id state now s)
  unfolding update_stored
  update_stored-IsMap none id state now s h = save-IsMap id state now s h
  update_stored-IsMap (some stored) id state now s h = insert-IsMap id _ s h

  cleanup_each-IsMap :
      (entries : Store V) (now : ℕ) (s : Store V) → IsMap s → IsMap (cleanup_each entries now s)
  unfolding cleanup_each
  cleanup_each-IsMap [] now s h = h
  cleanup_each-IsMap ((id, stored) ∷ entries) now s h =
      cleanup_each-IsMap entries now _ (ground (arith, erase-IsMap id s h))

  -- `save`, `get`, `update`, `delete`, `clear` and the cleanup keep a store whose saga ids are all
  -- different such a store.
  pub methods-IsMap :
      (id : String) (state : Object V) (now : ℕ) (s : Store V)
      → IsMap s
      → IsMap (save id state now s)
        × IsMap (get id now s).1
        × IsMap (update id state now s)
        × IsMap (delete id s)
        × IsMap (clear s)
        × IsMap (cleanup_expired_states now s)
  unfolding update delete clear cleanup_expired_states
  methods-IsMap id state now s h = (
    save-IsMap id state now s h,
    get-IsMap id now s h,
    update_stored-IsMap (lookup id s) id state now s h,
    erase-IsMap id s h,
    tt,
    cleanup_each-IsMap s now s h,
  )
