-- ===== src/Registration.antt =====
-- The registration of a user as a saga: apps/core/src/saga/user-registration.saga.ts.
-- The database client (Prisma), the password hash (Bun) and the Kafka producer are parameters, as
-- actions on the world. A step's promise takes as long as `elapsed` says.
pub mod Username
pub mod Keeps
pub mod Atomic
mod Tests
use Prim.Native.String.{◌++◌ as concat}
use plus_api.Common.{
  ℕ, String, Bool, true, false, Option, none, some, List, [], ◌∷◌, str_eq, ◌&&◌, if◌then◌else◌,
}
use plus_api.Common.Int.{pos}
use plus_api.Common.Text.{is_truthy, or_else, or_text}
use plus_api.Common.Dict.{lookup}
use plus_api.Common.Result.{
  Result, ok, err, Error, Async, pure, throw, try_catch, coded_error, ◌>>=◌, ◌>>◌,
}
use plus_api.Saga.Types.{Run, SagaStep, SagaConfig, SagaResult, Services}
use plus_api.Saga.Steps.Plain.{plain}
use plus_api.Saga.Orchestrator.{execute}
use plus_api.Registration.Username.{generate_username}

pub record UserRegistrationData : Type 0 where
  pub email : String
  pub password : String
  pub first_name : Option String
  pub last_name : Option String
  pub username : Option String
  pub role_key : Option String

pub record Role : Type 0 where
  pub id : String
  pub key : String

-- the columns of a user that the saga reads or writes
pub record User : Type 0 where
  pub id : String
  pub email : String
  pub username : String
  pub password : String
  pub first_name : Option String
  pub last_name : Option String
  pub full_name : Option String
  pub name : String
  pub roles : List Role
  pub created_at : ℕ
  pub updated_at : ℕ

-- the `data` of `prisma.user.create`
pub record NewUser : Type 0 where
  pub email : String
  pub username : String
  pub password : String
  pub first_name : Option String
  pub last_name : Option String
  pub full_name : Option String
  pub name : String

-- the user's data in a `created` event, without the password
pub record UserPayload : Type 0 where
  pub id : String
  pub email : String
  pub username : String
  pub first_name : Option String
  pub last_name : Option String
  pub full_name : Option String
  pub roles : List Role
  pub created_at : ℕ
  pub updated_at : ℕ

payload_of : User → UserPayload
payload_of user = record {
  id = user.id;
  email = user.email;
  username = user.username;
  first_name = user.first_name;
  last_name = user.last_name;
  full_name = user.full_name;
  roles = user.roles;
  created_at = user.created_at;
  updated_at = user.updated_at;
}

-- what `publishUserEvent` is called with: its type and the user's data
pub data UserEvent : Type 0 where
  user_created : UserPayload → UserEvent
  user_deleted : String → UserEvent

pub record Backend (W : Type 0) : Type 0 where
  pub find_user : String → Async W (Option User)  -- `user.findUnique` by email
  pub create_user : NewUser → Async W User
  pub delete_user : String → Async W (Unit {0})
  pub find_role : String → Async W (Option Role)  -- `role.findUnique` by key
  pub connect_role : String → String → Async W User  -- `user.update`, with the user's roles
  pub disconnect_role : String → String → Async W (Unit {0})
  pub hash_password : String → Async W String
  pub publish_user_event : UserEvent → String → String → Async W (Unit {0})  -- source, correlation id
  pub elapsed : String → W → ℕ  -- by the step's name

-- what the steps return
pub data StepResult : Type 0 where
  validated : StepResult
  hashed : String → StepResult
  created : String → User → StepResult
  assigned : String → String → User → StepResult
  published : StepResult

-- `result?.hashedPassword`, `result?.userId`, `result?.roleId`, `result?.user`
abbrev hashed_password : Option StepResult → Option String
hashed_password (some (hashed p)) = some p
hashed_password _ = none

abbrev pub user_id : Option StepResult → Option String
user_id (some (created id user)) = some id
user_id (some (assigned id role user)) = some id
user_id _ = none

abbrev role_id : Option StepResult → Option String
role_id (some (assigned id role user)) = some role
role_id _ = none

abbrev user_of : Option StepResult → Option User
user_of (some (created id user)) = some user
user_of (some (assigned id role user)) = some user
user_of _ = none

-- `if (!text) throw error`
pub require_text : {S : Type 0} → Option String → Error → Async S String
require_text none e = throw e
require_text (some s) e = if str_eq s "" then throw e else pure s

require : {S A : Type 0} → Option A → Error → Async S A
require none e = throw e
require (some a) e = pure a

pub of_result : {S A : Type 0} → Result A → Async S A
of_result (ok a) = pure a
of_result (err e) = throw e

-- The names that the new user gets.
full_name : Option String → Option String → Option String
full_name (some first) (some last) =
    if is_truthy (some first) && is_truthy (some last)
    then some (concat first (concat " " last))
    else or_else (some first) (some last)
full_name first last = or_else first last

choose_username : UserRegistrationData → Result String
choose_username d =
    if is_truthy d.username then ok (or_text d.username "") else generate_username d.email

new_user : UserRegistrationData → String → String → NewUser
new_user d username password = record {
  email = d.email;
  username = username;
  password = password;
  first_name = d.first_name;
  last_name = d.last_name;
  full_name = full_name d.first_name d.last_name;
  name = or_text (or_else d.first_name d.last_name) d.email;
}

-- `uuid` is the random part of the saga's id.
abbrev pub registration_config : String → SagaConfig
registration_config uuid = record {
  saga_id = concat "user-registration-" uuid;
  name = "UserRegistrationSaga";
  timeout = some 30000;
  retry_attempts = some 0;
}

abbrev pub State : Type 0 → Type 0
State W = Run UserRegistrationData StepResult W

module _ {W : Type 0} (b : Backend W) where
  -- a call of the backend
  call : {A : Type 0} → Async W A → Async (State W) A
  call m r = let (a, w) = m r.world in (a, record r { world = w })

  -- the saga's data, and the result of an earlier step
  pub content : Async (State W) UserRegistrationData
  content r = (ok r.context.content, r)

  pub result_of : String → Async (State W) (Option StepResult)
  result_of name r = (ok (lookup name r.context.step_results), r)

  saga_id : Async (State W) String
  saga_id r = (ok r.context.saga_id, r)

  -- `try { … } catch (error) { log }`
  swallow : Async (State W) (Unit {0}) → Async (State W) (Unit {0})
  swallow m = try_catch m pure (λ e. pure tt)

  pub no_compensation : Option StepResult → Async (State W) (Unit {0})
  no_compensation result = pure tt

  pub validate : Async (State W) StepResult
  validate = do
    d ← content
    existing ← call (b.find_user d.email)
    elim existing [
      | some user ↦ throw (
          coded_error (concat "User with email " (concat d.email " already exists"))
            "SAGA_USER_ALREADY_EXISTS")
      | none ↦ pure validated
    ]

  pub hash : Async (State W) StepResult
  hash = do d ← content; password ← call (b.hash_password d.password); pure (hashed password)

  pub create : Async (State W) StepResult
  create = do
    d ← content
    result ← result_of "HashPassword"
    password ← require_text (hashed_password result) (
        coded_error "Hashed password not found from previous step" "SAGA_HASHED_PASSWORD_NOT_FOUND")
    username ← of_result (choose_username d)
    user ← call (b.create_user (new_user d username password))
    pure (created user.id user)

  -- `if (result?.userId) { … }`
  when_text : Option String → (String → Async (State W) (Unit {0})) → Async (State W) (Unit {0})
  when_text none f = pure tt
  when_text (some s) f = if str_eq s "" then pure tt else f s

  pub delete_created : Option StepResult → Async (State W) (Unit {0})
  delete_created result = when_text (user_id result) (λ id. swallow (call (b.delete_user id)))

  pub assign : Async (State W) StepResult
  assign = do
    d ← content
    result ← result_of "CreateUser"
    id ←
        require_text (user_id result)
          (coded_error "User ID not found from previous step" "SAGA_USER_ID_NOT_FOUND")
    found ← call (b.find_role (or_text d.role_key "user"))
    role ← require found (
        coded_error (concat "Role " (concat (or_text d.role_key "user") " not found"))
          "SAGA_ROLE_NOT_FOUND")
    user ← call (b.connect_role id role.id)
    pure (assigned id role.id user)

  pub unassign : Option StepResult → Async (State W) (Unit {0})
  unassign result =
      when_text (user_id result)
        (λ id. when_text (role_id result) (λ role. swallow (call (b.disconnect_role id role))))

  pub publish : Async (State W) StepResult
  publish = do
    result ← result_of "AssignRole"
    user ←
        require (user_of result)
          (coded_error "User data not found from previous step" "SAGA_USER_DATA_NOT_FOUND")
    saga ← saga_id
    call (b.publish_user_event (user_created (payload_of user)) "user-registration-saga" saga)
    pure published

  pub unpublish : Option StepResult → Async (State W) (Unit {0})
  unpublish _ = do
    result ← result_of "AssignRole"
    saga ← saga_id
    when_text (user_id result) (λ id.
        swallow (
          call (b.publish_user_event (user_deleted id) "user-registration-saga-compensation" saga)))

  pub step :
      String
      → ℕ
      → Async (State W) StepResult
      → (Option StepResult → Async (State W) (Unit {0}))
      → SagaStep UserRegistrationData StepResult W
  step name order body undo = plain (λ r. b.elapsed name r.world) name (pos order) body undo

  pub steps : List (SagaStep UserRegistrationData StepResult W)
  steps =
      step "ValidateUser" 1 validate no_compensation
      ∷ step "HashPassword" 2 hash no_compensation
      ∷ step "CreateUser" 3 create delete_created
      ∷ step "AssignRole" 4 assign unassign
      ∷ step "PublishEvent" 5 publish unpublish
      ∷ []

  unfoldable pub register :
      Services UserRegistrationData StepResult W
      → String
      → UserRegistrationData
      → Async W (SagaResult UserRegistrationData StepResult)
  unfolding payload_of require_text require of_result full_name choose_username new_user call
      content result_of saga_id swallow no_compensation validate hash create when_text
      delete_created assign unassign publish unpublish step steps
  register svc uuid d = execute svc (registration_config uuid) steps d
