-- ===== src/Registration/Tests.antt =====
-- Registrations against a user table that is the list of its ids.
use plus_api.Common.{
  ◌≤◌, String, ◌≡◌, ◌≢◌, ◌↔◌, refl, Option, none, some, List, [], ◌∷◌, str_eq, eq_iff, arith, false,
  inr, if◌then◌else◌,
}
use mathlib.Core.Bool.{false≢true}
use plus_api.Common.Text.{length, Every}
use plus_api.Common.Result.{ok, err}
use plus_api.Saga.Types.{Services}
use plus_api.Saga.Events.{publish_event}
use plus_api.Saga.Steps.{sort_steps, run_loop}
use plus_api.Saga.Orchestrator.{execute}
use plus_api.Registration.{UserRegistrationData, User, NewUser, Backend, StepResult, register}
use plus_api.Registration.Keeps.{IsDirectory}
use plus_api.Registration.Atomic.{AllOrNothing, IsWritten, see, register-AllOrNothing}
use plus_api.Registration.Username.{before_at, no_username, generate_username, IsUsernameChar}
use plus_api.Registration.Username.Shape.{NoneAllowed, generate_username_shape}

abbrev Ids : Type 0
Ids = List String

abbrev user_of : NewUser → User
user_of n = record {
  id = "u1";
  email = n.email;
  username = n.username;
  password = n.password;
  first_name = n.first_name;
  last_name = n.last_name;
  full_name = n.full_name;
  name = n.name;
  roles = [];
  created_at = 0;
  updated_at = 0;
}

abbrev remove_last : Ids → Ids
remove_last [] = []
remove_last (id ∷ rest) = rest

abbrev nobody : User
nobody = record {
  id = "u1";
  email = "";
  username = "";
  password = "";
  first_name = none;
  last_name = none;
  full_name = none;
  name = "";
  roles = [];
  created_at = 0;
  updated_at = 0;
}

-- The only role is "user".
abbrev backend : Backend Ids
backend = record {
  find_user = λ email w. (ok none, w);
  create_user = λ user w. (ok (user_of user), "u1" ∷ w);
  delete_user = λ id w. (ok tt, remove_last w);
  find_role = λ key w.
      (ok (if str_eq key "user" then some (record { id = "r1"; key = "user" }) else none), w);
  connect_role = λ id role w. (ok nobody, w);
  disconnect_role = λ id role w. (ok tt, w);
  hash_password = λ password w. (ok "hash", w);
  publish_user_event = λ event source saga w. (ok tt, w);
  elapsed = λ name w. 10;
}

abbrev services : Services UserRegistrationData StepResult Ids
services = record { event_publisher = none; state_store = none; now = λ w. (0, w) }

abbrev ann : Option String → UserRegistrationData
ann role_key = record {
  email = "ann@example.com";
  password = "secret";
  first_name = some "Ann";
  last_name = none;
  username = none;
  role_key = role_key;
}

registered : (register backend services "x" (ann none) ("u0" ∷ [])).1 ≡ "u1" ∷ "u0" ∷ []
unfolding register execute run_loop sort_steps publish_event generate_username
registered = refl

-- There is no such role, so the new user is deleted again.
rolled_back : (register backend services "x" (ann (some "admin")) ("u0" ∷ [])).1 ≡ "u0" ∷ []
unfolding register execute run_loop sort_steps publish_event generate_username
rolled_back = refl

-- `delete` of the last user
deletes :
    (id : String) (rest : List String) (w : Ids)
    → w ≡ id ∷ rest
    → (backend.delete_user id w).1 ≡ rest
deletes id rest w listed = rw listed refl

-- A database that refuses no deletion.
directory : IsDirectory backend (see backend (λ w. w) (λ w. false))
directory = record {
  finds = λ email w. refl;
  finds_role = λ key w. refl;
  hashes = λ password w. refl;
  connects = λ user role w. refl;
  disconnects = λ user role w. refl;
  publishes = λ event source saga w. refl;
}

written : IsWritten backend (λ w. w) (λ w. false)
written = record {
  creates = λ user w. ((λ blank. false≢true ((eq_iff "u1" "").1 blank)), refl);
  deletes = λ id rest w listed. inr (deletes id rest w listed);
  stays = λ id w was. was;
}

register-AllOrNothing_example :
    let (result, w) = register backend services "x" (ann (some "admin")) ("u0" ∷ []) in
    AllOrNothing backend (λ w. w) (λ w. false) ("u0" ∷ []) result (w, false)
register-AllOrNothing_example =
    register-AllOrNothing backend (λ w. w) (λ w. false) directory written (λ name w. omega arith)
      services (record { now = λ w. refl; publisher = tt }) tt "x" (ann (some "admin")) ("u0" ∷ [])

generate_username_shape_example :
    ((name : String)
      → generate_username "J.Doe+x@example.com" ≡ ok name
      → (name ≢ "") × (length name ≤ 30) × Every IsUsernameChar name)
    × ((generate_username "J.Doe+x@example.com" ≡ err no_username)
        ↔ NoneAllowed (before_at "J.Doe+x@example.com"))
generate_username_shape_example = generate_username_shape "J.Doe+x@example.com"
