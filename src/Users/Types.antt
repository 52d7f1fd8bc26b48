-- ===== src/Users/Types.antt =====
-- Users: apps/core/src/users/users.service.ts with the enums and the model of
-- apps/core/prisma/schema.prisma, of a user the columns that the services read or write.
use plus_api.Common.{ℕ, String, Bool, Option, none, List}
use plus_api.Common.Result.{Async}

pub data UserStatus : Type 0 where
  active inactive suspended locked pending_verification archived : UserStatus

pub data LoginMethod : Type 0 where
  local google facebook microsoft apple sso : LoginMethod

pub data Gender : Type 0 where
  male female other prefer_not_to_say : Gender

pub record Role : Type 0 where
  pub id : String
  pub key : String

pub record User : Type 0 where
  pub id : String
  pub email : String
  pub username : String
  pub password : String
  pub phone : Option String
  pub first_name : Option String
  pub last_name : Option String
  pub full_name : Option String
  pub name : String
  pub avatar : Option String
  pub date_of_birth : Option ℕ
  pub gender : Option Gender
  pub address : Option String
  pub status : UserStatus
  pub login_method : LoginMethod
  pub email_verified : Bool
  pub phone_verified : Bool
  pub two_factor_enabled : Bool
  pub two_factor_secret : Option String
  pub last_login : Option ℕ
  pub last_login_ip : Option String
  pub failed_login_attempts : ℕ
  pub lockout_expires : Option ℕ
  pub password_reset_token : Option String
  pub password_reset_expires : Option ℕ
  pub deleted_at : Option ℕ
  pub updated_at : ℕ
  pub roles : List Role

pub record CreateUserInput : Type 0 where
  pub email : String
  pub password : String
  pub first_name : Option String
  pub last_name : Option String
  pub username : Option String
  pub phone : Option String
  pub status : Option String
  pub login_method : Option String

pub record RegisterUserInput : Type 0 where
  pub email : String
  pub password : String
  pub first_name : Option String
  pub last_name : Option String

pub record UpdateUserInput : Type 0 where
  pub first_name : Option String
  pub last_name : Option String
  pub full_name : Option String
  pub avatar : Option String
  pub date_of_birth : Option ℕ
  pub gender : Option String
  pub address : Option String
  pub phone : Option String
  pub status : Option UserStatus
  pub email_verified : Option Bool
  pub phone_verified : Option Bool
  pub two_factor_enabled : Option Bool
  pub last_login : Option ℕ
  pub last_login_ip : Option String
  pub failed_login_attempts : Option ℕ
  pub lockout_expires : Option ℕ
  pub password_reset_token : Option String
  pub password_reset_expires : Option ℕ

abbrev pub no_input : UpdateUserInput
no_input = record {
  first_name = none;
  last_name = none;
  full_name = none;
  avatar = none;
  date_of_birth = none;
  gender = none;
  address = none;
  phone = none;
  status = none;
  email_verified = none;
  phone_verified = none;
  two_factor_enabled = none;
  last_login = none;
  last_login_ip = none;
  failed_login_attempts = none;
  lockout_expires = none;
  password_reset_token = none;
  password_reset_expires = none;
}

-- `data` of `user.create`; Prisma takes the column's default for what is undefined.
pub record NewUser : Type 0 where
  pub email : String
  pub username : String
  pub password : String
  pub name : String
  pub first_name : Option String
  pub last_name : Option String
  pub full_name : Option String
  pub phone : Option String
  pub status : Option UserStatus
  pub login_method : Option LoginMethod
  pub role_id : Option String

-- `data` of `user.update`: an `update` of the service, or the columns that are named
pub data UserData : Type 0 where
  -- the input, the gender and the full name computed from it, and the date of the update
  changes : UpdateUserInput → Option Gender → Option String → ℕ → UserData
  deletion : ℕ → String → String → UserData  -- the date, the e-mail and the user name
  new_password : String → UserData
  reset_password_to : String → UserData  -- its token and date are undefined
  nothing : UserData
  two_factor_on two_factor_off : UserData
  connect_role disconnect_role : String → UserData

-- the rows from which an event's payload is picked, and the row before an update
pub data UserEvent : Type 0 where
  created : User → UserEvent
  updated : User → User → UserEvent
  deleted : User → ℕ → UserEvent

-- a condition of `findFirst`
pub data Contact : Type 0 where
  email_is phone_is username_is : String → Contact

-- the role keys in the payload of a token
pub data RolesClaim : Type 0 where
  no_claim : RolesClaim
  listed : List String → RolesClaim
  joined : String → RolesClaim

pub record Claims : Type 0 where
  pub user_id : String
  pub email : Option String
  pub roles : RolesClaim

pub data TokenUse : Type 0 where
  access refresh : TokenUse

-- what `jwtService.decode` gives
pub record DecodedToken : Type 0 where
  pub exp : Option ℕ
  pub jit : Option String

-- Prisma, the three loaders, Bun's hash, the signing of tokens, Redis and Kafka
pub record UserClient (W : Type 0) : Type 0 where
  pub load_by_id : String → Async W (Option User)
  pub load_by_email : String → Async W (Option User)
  pub load_by_username : String → Async W (Option User)
  pub find_unique : String → Async W (Option User)  -- by e-mail
  pub find_first : List Contact → Async W (Option User)  -- one that meets some condition
  pub find_role : String → Async W (Option Role)  -- by key
  pub create_user : NewUser → Async W User
  pub update_user : String → UserData → Async W User
  pub publish : UserEvent → String → String → Async W (Unit {0})  -- source and correlation id
  pub hash_password : String → Async W String
  pub verify_password : String → String → Async W Bool
  pub sign : Claims → TokenUse → W → String
  pub decode : String → Option DecodedToken
  pub redis_set : String → ℕ → Async W (Unit {0})  -- the value `true`, for so many seconds
  pub redis_get : String → Async W (Option String)
  pub now : W → ℕ
  pub show_ℕ : ℕ → String
