-- ===== src/Auth/Entities/Users.antt =====
-- Users as better-auth sees them (apps/api/src/auth.rs).
use epistl.Prelude.{ℕ, String, Bool, false, Option, none, some, get_or, []}
use epistl.Wire.{Wire}
use epistl.Auth.Entities.{ActiveValue, set, AuthResult, parsed_or, set_some, set_present, id_or}

pub record Model : Type 0 where
  pub id : ℕ
  pub email : String
  pub email_verified : Bool
  pub name : Option String
  pub image : Option String
  pub username : String
  pub display_username : Option String
  pub created_at : ℕ
  pub updated_at : ℕ

pub record ActiveModel : Type 0 where
  pub id : ActiveValue ℕ
  pub email : ActiveValue String
  pub email_verified : ActiveValue Bool
  pub name : ActiveValue (Option String)
  pub image : ActiveValue (Option String)
  pub username : ActiveValue String
  pub display_username : ActiveValue (Option String)
  pub created_at : ActiveValue ℕ
  pub updated_at : ActiveValue ℕ

-- `user::Column`, which is derived.
pub data Column : Type 0 where
  id_column email_column email_verified_column name_column image_column : Column
  username_column display_username_column created_at_column updated_at_column : Column

-- The methods of `AuthUser`.
pub record AuthUser (V : Type 0) : Type 0 where
  pub id : String
  pub email : Option String
  pub name : Option String
  pub email_verified : Bool
  pub image : Option String
  pub created_at : ℕ
  pub updated_at : ℕ
  pub username : Option String
  pub display_username : Option String
  pub two_factor_enabled : Bool
  pub role : Option String
  pub banned : Bool
  pub ban_reason : Option String
  pub ban_expires : Option ℕ
  pub metadata : V

-- `CreateUser` and `UpdateUser` of the crate, with the fields that the code reads.
pub record CreateUser : Type 0 where
  pub email : Option String
  pub name : Option String
  pub image : Option String
  pub email_verified : Option Bool
  pub username : Option String
  pub display_username : Option String

-- The columns that `SeaOrmUserModel` names.
pub record Columns : Type 0 where
  pub id : Column
  pub email : Column
  pub name : Column
  pub created_at : Column

unfoldable pub columns : Columns
columns = record {
  id = id_column;
  email = email_column;
  name = name_column;
  created_at = created_at_column;
}

module _ (w : Wire) where
  unfoldable pub empty_metadata : w.Value
  empty_metadata = w.obj []

  unfoldable pub auth_user : Model → AuthUser w.Value
  unfolding empty_metadata
  auth_user m = record {
    id = w.uuid_text m.id;
    email = some m.email;
    name = m.name;
    email_verified = m.email_verified;
    image = m.image;
    created_at = m.created_at;
    updated_at = m.updated_at;
    username = some m.username;
    display_username = m.display_username;
    two_factor_enabled = false;
    role = none;
    banned = false;
    ban_reason = none;
    ban_expires = none;
    metadata = empty_metadata;
  }

  unfoldable pub parse_id : String → AuthResult ℕ
  parse_id id = parsed_or "Invalid user id" (w.parse_uuid id)

unfoldable pub new_active : ℕ → Option ℕ → CreateUser → ℕ → ActiveModel
new_active new_v4 id create_user now = record {
  id = set (id_or new_v4 id);
  email = set (get_or create_user.email "");
  name = set create_user.name;
  image = set create_user.image;
  email_verified = set (get_or create_user.email_verified false);
  username = set (get_or create_user.username "");
  display_username = set create_user.display_username;
  created_at = set now;
  updated_at = set now;
}

unfoldable pub apply_update : ActiveModel → CreateUser → ℕ → ActiveModel
apply_update active update now = record active {
  email = set_some update.email active.email;
  name = set_present update.name active.name;
  image = set_present update.image active.image;
  email_verified = set_some update.email_verified active.email_verified;
  username = set_some update.username active.username;
  display_username = set_present update.display_username active.display_username;
  updated_at = set now;
}
