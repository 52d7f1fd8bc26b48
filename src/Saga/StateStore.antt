-- ===== src/Saga/StateStore.antt =====
-- The in-memory store of saga states: shared/common/src/saga/saga-state-store.service.ts.
-- A saga state is an object, as a dictionary of its fields; the store is a `Map` from saga ids. Each
-- method that asks for the time takes it as its last but one argument, in milliseconds.
pub mod Keys
pub mod Laws
pub mod Updated
pub mod Expiry
mod Tests
use plus_api.Common.{ℕ, ◌+◌, String, Bool, Option, none, some, List, [], ◌∷◌, ltb, if◌then◌else◌}
use plus_api.Common.Dict.{Dict, lookup, insert, erase}

-- A field of a state: one that the orchestrator gave, or a date that the store added.
pub data Field (V : Type 0) : Type 0 where
  value : V → Field V
  date : ℕ → Field V

abbrev pub Object : Type 0 → Type 0
Object V = Dict (Field V)

pub record StoredState (V : Type 0) : Type 0 where
  pub state : Object V
  pub saved_at : ℕ
  pub expires_at : ℕ

abbrev pub Store : Type 0 → Type 0
Store V = Dict (StoredState V)

-- 1 hour
abbrev pub ttl_ms : ℕ
ttl_ms = 3600000

module _ {V : Type 0} where
  -- `{ ...a, ...b }`
  pub spread : Object V → Object V → Object V
  spread a [] = a
  spread a ((k, v) ∷ b) = spread (insert k v a) b

  pub save : String → Object V → ℕ → Store V → Store V
  save id state now s =
      insert id
        (record {
          state = insert "savedAt" (date now) (spread [] state);
          saved_at = now;
          expires_at = now + ttl_ms;
        })
        s

  pub is_expired : StoredState V → ℕ → Bool
  is_expired stored now = ltb stored.expires_at now

  get_stored : Option (StoredState V) → String → ℕ → Store V → Option (Object V) × Store V
  get_stored none id now s = (none, s)
  get_stored (some stored) id now s =
      if is_expired stored now then (none, erase id s) else (some stored.state, s)

  pub get : String → ℕ → Store V → Option (Object V) × Store V
  unfolding get_stored is_expired
  get id now s = get_stored (lookup id s) id now s

  update_stored : Option (StoredState V) → String → Object V → ℕ → Store V → Store V
  update_stored none id state now s = save id state now s
  update_stored (some stored) id state now s =
      insert id
        (record {
          state = insert "updatedAt" (date now) (spread (spread [] stored.state) state);
          saved_at = stored.saved_at;
          expires_at = now + ttl_ms;
        })
        s

  pub update : String → Object V → ℕ → Store V → Store V
  unfolding update_stored
  update id state now s = update_stored (lookup id s) id state now s

  pub delete : String → Store V → Store V
  delete id s = erase id s

  collect : Dict (Object V) → Store V → Dict (Object V)
  collect result [] = result
  collect result ((id, stored) ∷ s) = collect (insert id stored.state result) s

  -- the states of all entries, expired ones included
  pub get_all : Store V → Dict (Object V)
  unfolding collect
  get_all s = collect [] s

  pub clear : Store V → Store V
  clear s = []

  -- The loop over the entries, which deletes from the store as it goes.
  cleanup_each : Store V → ℕ → Store V → Store V
  cleanup_each [] now s = s
  cleanup_each ((id, stored) ∷ entries) now s =
      cleanup_each entries now (if is_expired stored now then erase id s else s)

  pub cleanup_expired_states : ℕ → Store V → Store V
  unfolding cleanup_each is_expired
  cleanup_expired_states now s = cleanup_each s now s
