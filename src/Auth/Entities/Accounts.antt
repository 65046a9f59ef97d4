-- ===== src/Auth/Entities/Accounts.antt =====
-- Accounts, which hold the password hashes, as better-auth sees them (apps/api/src/auth.rs).
use epistl.Prelude.{ℕ, String, Option, none, some}
use epistl.Wire.{Wire}
use epistl.Auth.Entities.{ActiveValue, set, AuthResult, parsed_or, set_present, id_or}

pub record Model : Type 0 where
  pub id : ℕ
  pub account_id : String
  pub provider_id : String
  pub user_id : ℕ
  pub access_token : Option String
  pub refresh_token : Option String
  pub id_token : Option String
  pub access_token_expires_at : Option ℕ
  pub refresh_token_expires_at : Option ℕ
  pub scope : Option String
  pub password : Option String
  pub created_at : ℕ
  pub updated_at : ℕ

pub record ActiveModel : Type 0 where
  pub id : ActiveValue ℕ
  pub account_id : ActiveValue String
  pub provider_id : ActiveValue String
  pub user_id : ActiveValue ℕ
  pub access_token : ActiveValue (Option String)
  pub refresh_token : ActiveValue (Option String)
  pub id_token : ActiveValue (Option String)
  pub access_token_expires_at : ActiveValue (Option ℕ)
  pub refresh_token_expires_at : ActiveValue (Option ℕ)
  pub scope : ActiveValue (Option String)
  pub password : ActiveValue (Option String)
  pub created_at : ActiveValue ℕ
  pub updated_at : ActiveValue ℕ

pub data Column : Type 0 where
  id_column account_id_column provider_id_column user_id_column access_token_column : Column
  refresh_token_column id_token_column access_token_expires_at_column : Column
  refresh_token_expires_at_column scope_column password_column : Column
  created_at_column updated_at_column : Column

-- The methods of `AuthAccount`.
pub record AuthAccount : Type 0 where
  pub id : String
  pub account_id : String
  pub provider_id : String
  pub user_id : String
  pub access_token : Option String
  pub refresh_token : Option String
  pub id_token : Option String
  pub access_token_expires_at : Option ℕ
  pub refresh_token_expires_at : Option ℕ
  pub scope : Option String
  pub password : Option String
  pub created_at : ℕ
  pub updated_at : ℕ

pub record UpdateAccount : Type 0 where
  pub access_token : Option String
  pub refresh_token : Option String
  pub id_token : Option String
  pub access_token_expires_at : Option ℕ
  pub refresh_token_expires_at : Option ℕ
  pub scope : Option String
  pub password : Option String

pub record CreateAccount : Type 0 where
  pub user_id : String
  pub account_id : String
  pub provider_id : String
  pub values : UpdateAccount

pub record Columns : Type 0 where
  pub id : Column
  pub provider_id : Column
  pub account_id : Column
  pub user_id : Column
  pub created_at : Column

unfoldable pub columns : Columns
columns = record {
  id = id_column;
  provider_id = provider_id_column;
  account_id = account_id_column;
  user_id = user_id_column;
  created_at = created_at_column;
}

abbrev pub filled : ℕ → Option ℕ → CreateAccount → ℕ → ℕ → ActiveModel
filled new_v4 id create_account now user_id = record {
  id = set (id_or new_v4 id);
  account_id = set create_account.account_id;
  provider_id = set create_account.provider_id;
  user_id = set user_id;
  access_token = set create_account.values.access_token;
  refresh_token = set create_account.values.refresh_token;
  id_token = set create_account.values.id_token;
  access_token_expires_at = set create_account.values.access_token_expires_at;
  refresh_token_expires_at = set create_account.values.refresh_token_expires_at;
  scope = set create_account.values.scope;
  password = set create_account.values.password;
  created_at = set now;
  updated_at = set now;
}

abbrev pub active_for : ℕ → Option ℕ → CreateAccount → ℕ → Option ℕ → Option ActiveModel
active_for new_v4 id create_account now none = none
active_for new_v4 id create_account now (some user_id) =
    some (filled new_v4 id create_account now user_id)

module _ (w : Wire) where
  unfoldable pub auth_account : Model → AuthAccount
  auth_account m = record {
    id = w.uuid_text m.id;
    account_id = m.account_id;
    provider_id = m.provider_id;
    user_id = w.uuid_text m.user_id;
    access_token = m.access_token;
    refresh_token = m.refresh_token;
    id_token = m.id_token;
    access_token_expires_at = m.access_token_expires_at;
    refresh_token_expires_at = m.refresh_token_expires_at;
    scope = m.scope;
    password = m.password;
    created_at = m.created_at;
    updated_at = m.updated_at;
  }

  unfoldable pub parse_id : String → AuthResult ℕ
  parse_id id = parsed_or "Invalid account id" (w.parse_uuid id)

  unfoldable pub parse_user_id : String → AuthResult ℕ
  parse_user_id user_id = parsed_or "Invalid account user id" (w.parse_uuid user_id)

  -- `none` is the panic of `expect` at a user id that is no UUID.
  unfoldable pub new_active : ℕ → Option ℕ → CreateAccount → ℕ → Option ActiveModel
  new_active new_v4 id create_account now =
      active_for new_v4 id create_account now (w.parse_uuid create_account.user_id)

unfoldable pub apply_update : ActiveModel → UpdateAccount → ℕ → ActiveModel
apply_update active update now = record active {
  access_token = set_present update.access_token active.access_token;
  refresh_token = set_present update.refresh_token active.refresh_token;
  id_token = set_present update.id_token active.id_token;
  access_token_expires_at =
      set_present update.access_token_expires_at active.access_token_expires_at;
  refresh_token_expires_at =
      set_present update.refresh_token_expires_at active.refresh_token_expires_at;
  scope = set_present update.scope active.scope;
  password = set_present update.password active.password;
  updated_at = set now;
}
