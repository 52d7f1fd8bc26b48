-- ===== src/Loaders.antt =====
-- The data loaders, which load the rows of many keys by one query:
-- plugins/payment/src/dataloader/payment.dataloader.service.ts,
-- apps/core/src/users/users.dataloader.service.ts and apps/core/src/roles/roles.dataloader.service.ts.
-- The queries of Prisma are parameters; a row is its keys and the rest, of the type `C`.
pub mod Batch
mod Tests
use plus_api.Common.{String, Option, none, some, List, [], ◌∷◌, ◌++◌, map}
use plus_api.Common.Dict.{Dict, lookup, insert}
use plus_api.Common.Dict.Multi.{list_or_empty, push_at}
use plus_api.Common.Result.{Async, pure, ◌>>=◌}

-- a subscription, a payment method, an invoice or a transaction
pub record Owned (C : Type 0) : Type 0 where
  pub id : String
  pub user_id : String
  pub content : C

-- a subscription plan
pub record Plan (C : Type 0) : Type 0 where
  pub id : String
  pub content : C

pub record User (C : Type 0) : Type 0 where
  pub id : String
  pub email : String
  pub username : String
  pub content : C

pub record Role (C : Type 0) : Type 0 where
  pub id : String
  pub key : String
  pub content : C

module _ {R : Type 0} (key : R → String) where
  -- `new Map(rows.map((row) => [row.key, row]))`, onto a map
  unfoldable pub from_entries : Dict R → List R → Dict R
  from_entries m [] = m
  from_entries m (r ∷ rs) = from_entries (insert (key r) r m) rs

  -- the `forEach` that groups the rows
  unfoldable pub group_rows : Dict (List R) → List R → Dict (List R)
  group_rows m [] = m
  group_rows m (r ∷ rs) = group_rows (push_at (key r) r m) rs

  module _ {W : Type 0} (find_many : List String → Async W (List R)) where
    -- one row or null for each key
    unfoldable pub batch_one : List String → Async W (List (Option R))
    batch_one keys =
        find_many keys >>= λ rows. pure (map (λ k. lookup k (from_entries [] rows)) keys)

    -- all rows of each key
    unfoldable pub batch_many : List String → Async W (List (List R))
    batch_many keys = find_many keys >>= λ rows.
        pure (map (λ k. list_or_empty (lookup k (group_rows [] rows))) keys)

-- `findMany` with `where: { <key>: { in: keys } }`, by table and key
pub record PaymentClient (C W : Type 0) : Type 0 where
  pub subscriptions_by_id : List String → Async W (List (Owned C))
  pub subscriptions_by_user : List String → Async W (List (Owned C))
  pub plans_by_id : List String → Async W (List (Plan C))
  pub methods_by_id : List String → Async W (List (Owned C))
  pub methods_by_user : List String → Async W (List (Owned C))
  pub invoices_by_id : List String → Async W (List (Owned C))
  pub invoices_by_user : List String → Async W (List (Owned C))
  pub transactions_by_id : List String → Async W (List (Owned C))
  pub transactions_by_user : List String → Async W (List (Owned C))

pub record CoreClient (C W : Type 0) : Type 0 where
  pub users_by_id : List String → Async W (List (User C))
  pub users_by_email : List String → Async W (List (User C))
  pub users_by_username : List String → Async W (List (User C))
  pub roles_by_id : List String → Async W (List (Role C))
  pub roles_by_key : List String → Async W (List (Role C))

module _ {C W : Type 0} (client : PaymentClient C W) where
  abbrev pub load_subscriptions_by_ids : List String → Async W (List (Option (Owned C)))
  load_subscriptions_by_ids = batch_one (λ r. r.id) client.subscriptions_by_id

  abbrev pub load_subscriptions_by_user_ids : List String → Async W (List (List (Owned C)))
  load_subscriptions_by_user_ids = batch_many (λ r. r.user_id) client.subscriptions_by_user

  abbrev pub load_subscription_plans_by_ids : List String → Async W (List (Option (Plan C)))
  load_subscription_plans_by_ids = batch_one (λ r. r.id) client.plans_by_id

  abbrev pub load_payment_methods_by_ids : List String → Async W (List (Option (Owned C)))
  load_payment_methods_by_ids = batch_one (λ r. r.id) client.methods_by_id

  abbrev pub load_payment_methods_by_user_ids : List String → Async W (List (List (Owned C)))
  load_payment_methods_by_user_ids = batch_many (λ r. r.user_id) client.methods_by_user

  abbrev pub load_invoices_by_ids : List String → Async W (List (Option (Owned C)))
  load_invoices_by_ids = batch_one (λ r. r.id) client.invoices_by_id

  abbrev pub load_invoices_by_user_ids : List String → Async W (List (List (Owned C)))
  load_invoices_by_user_ids = batch_many (λ r. r.user_id) client.invoices_by_user

  abbrev pub load_transactions_by_ids : List String → Async W (List (Option (Owned C)))
  load_transactions_by_ids = batch_one (λ r. r.id) client.transactions_by_id

  abbrev pub load_transactions_by_user_ids : List String → Async W (List (List (Owned C)))
  load_transactions_by_user_ids = batch_many (λ r. r.user_id) client.transactions_by_user

module _ {C W : Type 0} (client : CoreClient C W) where
  abbrev pub load_users_by_ids : List String → Async W (List (Option (User C)))
  load_users_by_ids = batch_one (λ r. r.id) client.users_by_id

  abbrev pub load_users_by_emails : List String → Async W (List (Option (User C)))
  load_users_by_emails = batch_one (λ r. r.email) client.users_by_email

  abbrev pub load_users_by_usernames : List String → Async W (List (Option (User C)))
  load_users_by_usernames = batch_one (λ r. r.username) client.users_by_username

  abbrev pub load_roles_by_ids : List String → Async W (List (Option (Role C)))
  load_roles_by_ids = batch_one (λ r. r.id) client.roles_by_id

  abbrev pub load_roles_by_keys : List String → Async W (List (Option (Role C)))
  load_roles_by_keys = batch_one (λ r. r.key) client.roles_by_key
