-- ===== src/Auth/Entities.antt =====
-- The entities of apps/api/src/auth.rs, with the traits of the better-auth crate that they implement:
-- what is common to users, sessions, accounts and verifications.
pub mod Users
pub mod Sessions
pub mod Accounts
pub mod Verifications
pub mod Updates
pub mod Owners
use epistl.Prelude.{ℕ, String, Option, none, some, get_or}
use epistl.Wire.{Wire}

-- `sea_orm::ActiveValue`
pub data ActiveValue (A : Type 0) : Type 0 where
  set : A → ActiveValue A
  unchanged : A → ActiveValue A
  not_set : ActiveValue A

-- `AuthResult`, of which `AuthError::bad_request` is the only error here.
pub data AuthResult (A : Type 0) : Type 0 where
  ok : A → AuthResult A
  bad_request : String → AuthResult A

-- `Uuid::parse_str(id).map_err(|_| AuthError::bad_request(message))`
abbrev pub parsed_or : String → Option ℕ → AuthResult ℕ
parsed_or message none = bad_request message
parsed_or message (some u) = ok u

-- `if let Some(a) = update { active = Set(a) }`, for a column that may not be null and one that may.
abbrev pub set_some : {A : Type 0} → Option A → ActiveValue A → ActiveValue A
set_some none column = column
set_some (some a) column = set a

abbrev pub set_present : {A : Type 0} → Option A → ActiveValue (Option A) → ActiveValue (Option A)
set_present none column = column
set_present (some a) column = set (some a)

-- `id.unwrap_or_else(Uuid::new_v4)`, with the UUID that is drawn.
abbrev pub id_or : ℕ → Option ℕ → ℕ
id_or new_v4 id = get_or id new_v4
