-- ===== src/Saga/StateStore/Tests.antt =====
-- The saga store at concrete states.
use plus_api.Common.{ℕ, ◌≡◌, refl, some, [], ◌∷◌, arith}
use plus_api.Common.Dict.{lookup}
use plus_api.Common.Dict.Keys.{IsMap}
use plus_api.Saga.StateStore.{value, Object, Store, StoredState, get, cleanup_expired_states}
use plus_api.Saga.StateStore.Expiry.{get-cleanup}

abbrev running : Object ℕ
running = ("status", value 1) ∷ ("step", value 2) ∷ []

abbrev done : Object ℕ
done = ("status", value 9) ∷ []

abbrev stored : StoredState ℕ
stored = record { state = running; saved_at = 10; expires_at = 3600010 }

abbrev store : Store ℕ
store = ("a", stored) ∷ ("b", stored) ∷ []

running-IsMap : IsMap running
unfolding lookup
running-IsMap = (refl, (refl, tt))

done-IsMap : IsMap done
unfolding lookup
done-IsMap = (refl, tt)

store-IsMap : IsMap store
unfolding lookup
store-IsMap = (refl, (refl, tt))

held : lookup "a" store ≡ some stored
unfolding lookup
held = refl

get-cleanup_example :
    (get "b" 3600012 (cleanup_expired_states 3600011 store)).0 ≡ (get "b" 3600012 store).0
get-cleanup_example = get-cleanup store "b" 3600011 3600012 store-IsMap (omega arith)
