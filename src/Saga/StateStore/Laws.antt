-- ===== src/Saga/StateStore/Laws.antt =====
-- What a later `get` returns, field by field.
use plus_api.Common.{
  ℕ, ◌+◌, String, ◌≡◌, refl, ap, ◌∙◌, Option, none, some, [], ◌∷◌, arith, ltb, str_eq, eq_iff,
  eq_refl, inl, inr, Bool-cases, if◌then◌else◌,
}
use plus_api.Common.Dict.{lookup, insert, lookup-insert}
use plus_api.Common.Dict.Keys.{IsMap}
use plus_api.Saga.StateStore.{
  Field, date, Object, Store, StoredState, ttl_ms, spread, save, get, update, update_stored,
}

module _ {V : Type 0} where
  -- the second value where there is one, else the first
  abbrev pub override : Option (Field V) → Option (Field V) → Option (Field V)
  override a none = a
  override a (some v) = some v

  abbrev pub field : String → Option (Object V) → Option (Field V)
  field k none = none
  field k (some state) = lookup k state

  pub lookup-spread :
      (k : String) (a b : Object V)
      → IsMap b
      → lookup k (spread a b) ≡ override (lookup k a) (lookup k b)
  unfolding spread lookup
  lookup-spread k a [] h = refl
  lookup-spread k a ((j, v) ∷ b) h =
      ground (arith, lookup-spread k (insert j v a) b h.1, lookup-insert j k v a, eq_iff j k)

  -- what `get` makes of an entry at a time
  abbrev pub unexpired : ℕ → Option (StoredState V) → Option (Object V)
  unexpired now none = none
  unexpired now (some stored) = if ltb stored.expires_at now then none else some stored.state

  pub get-lookup :
      (id : String) (now : ℕ) (s : Store V) → (get id now s).0 ≡ unexpired now (lookup id s)
  unfolding get
  get-lookup id now s = ground arith

  field-unexpired :
      (k : String) (now : ℕ) (state : Object V) (saved expires : ℕ)
      → field k
          (unexpired now (some (record { state = state; saved_at = saved; expires_at = expires })))
        ≡ (if ltb expires now then none else lookup k state)
  field-unexpired k now state saved expires = elim (Bool-cases (ltb expires now)) [
    | inl late ↦ rw late refl
    | inr early ↦ rw early refl
  ]

  override-none : (o : Option (Field V)) → override none o ≡ o
  override-none none = refl
  override-none (some v) = refl

  lookup-copy :
      (k : String) (state : Object V) → IsMap state → lookup k (spread [] state) ≡ lookup k state
  unfolding lookup
  lookup-copy k state h = lookup-spread k [] state h ∙ override-none (lookup k state)

  abbrev within : ℕ → ℕ → Option (Field V) → Option (Field V)
  within expires_at now o = if ltb expires_at now then none else o

  abbrev stamped : String → ℕ → String → Option (Field V) → Option (Field V)
  stamped key now k o = if str_eq key k then some (date now) else o

  -- After `save` at a time `now`, `get` at a time `t` finds, up to an hour after `now`, the saved
  -- fields and the date of saving; later it finds nothing; and other sagas are as they were.
  pub get-save :
      (id j : String) (state : Object V) (now t : ℕ) (s : Store V) (k : String)
      → IsMap state
      → field k (get j t (save id state now s)).0 ≡ (
          if str_eq id j
          then (if ltb (now + ttl_ms) t
              then none
              else if str_eq "savedAt" k
              then some (date now)
              else lookup k state)
          else field k (get j t s).0)
  unfolding save
  get-save id j state now t s k h =
      simp (get-lookup, lookup-insert)
        (elim (Bool-cases (str_eq id j)) [
          | inl same ↦ rw same (
              field-unexpired k t (insert "savedAt" (date now) (spread [] state)) now (now + ttl_ms)
              ∙ ap (within (now + ttl_ms) t) (
                  lookup-insert "savedAt" k (date now) (spread [] state)
                  ∙ ap (stamped "savedAt" now k) (lookup-copy k state h)))
          | inr other ↦ rw other refl
        ])

  -- `update` of a saga that the store holds, expired or not, keeps the fields that the new state does
  -- not have, takes the others from it, stamps the date of the update, and starts a new hour.
  pub get-update :
      (id : String) (state : Object V) (now t : ℕ) (s : Store V) (stored : StoredState V)
      (k : String)
      → lookup id s ≡ some stored
      → IsMap stored.state
      → IsMap state
      → field k (get id t (update id state now s)).0 ≡ (
          if ltb (now + ttl_ms) t
          then none
          else if str_eq "updatedAt" k
          then some (date now)
          else override (lookup k stored.state) (lookup k state))
  unfolding update
  get-update id state now t s stored k held old new =
      simp (get-lookup, held, lookup-insert, eq_refl)
        (field-unexpired k t (insert "updatedAt" (date now) (spread (spread [] stored.state) state))
            stored.saved_at (now + ttl_ms)
          ∙ ap (within (now + ttl_ms) t) (
              lookup-insert "updatedAt" k (date now) (spread (spread [] stored.state) state)
              ∙ ap (stamped "updatedAt" now k) (
                  lookup-spread k (spread [] stored.state) state new
                  ∙ ap (λ o. override o (lookup k state)) (lookup-copy k stored.state old))))

  -- `update` of a saga that the store does not hold is `save`.
  pub update-eq-save :
      (id : String) (state : Object V) (now : ℕ) (s : Store V)
      → lookup id s ≡ none
      → update id state now s ≡ save id state now s
  unfolding update
  update-eq-save id state now s missing = rw (missing, update_stored) refl
