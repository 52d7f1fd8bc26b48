-- ===== src/Loaders/Tests.antt =====
-- The data loaders on a table of two invoices.
use plus_api.Common.{String, ◌≡◌, refl, List, [], ◌∷◌}
use plus_api.Common.Lists.{keep, member}
use plus_api.Common.Result.{ok, Async}
use plus_api.Loaders.{Owned, batch_many}
use plus_api.Loaders.Batch.{batch_many_lem}

abbrev invoice : String → String → Owned String
invoice id user = record { id = id; user_id = user; content = "USD" }

abbrev invoices : List (Owned String)
invoices = invoice "i1" "u1" ∷ invoice "i2" "u2" ∷ invoice "i3" "u1" ∷ []

abbrev select :
    (Owned String → String) → List String → Async (List (Owned String)) (List (Owned String))
select key ks w = (ok (keep (λ r. member (key r) ks) w), w)

batch_many_lem_example :
    batch_many (λ r. r.user_id) (select (λ r. r.user_id)) ("u1" ∷ "u7" ∷ []) invoices
    ≡ (ok ((invoice "i1" "u1" ∷ invoice "i3" "u1" ∷ []) ∷ [] ∷ []), invoices)
unfolding keep
batch_many_lem_example =
    batch_many_lem (λ r. r.user_id) (select (λ r. r.user_id)) (λ w. w) (λ ks w. refl)
      ("u1" ∷ "u7" ∷ []) invoices
