-- ===== src/Auth/Entities/Sessions.antt =====
-- Sessions as better-auth sees them (apps/api/src/auth.rs).
use epistl.Prelude.{ℕ, String, Bool, true, Option, none, some}
use epistl.Wire.{Wire}
use epistl.Auth.Entities.{ActiveValue, set, AuthResult, parsed_or, id_or}

pub record Model : Type 0 where
  pub id : ℕ
  pub user_id : ℕ
  pub token : String
  pub expires_at : ℕ
  pub ip_address : Option String
  pub user_agent : Option String
  pub active : Bool
  pub created_at : ℕ
  pub updated_at : ℕ

pub record ActiveModel : Type 0 where
  pub id : ActiveValue ℕ
  pub user_id : ActiveValue ℕ
  pub token : ActiveValue String
  pub expires_at : ActiveValue ℕ
  pub ip_address : ActiveValue (Option String)
  pub user_agent : ActiveValue (Option String)
  pub active : ActiveValue Bool
  pub created_at : ActiveValue ℕ
  pub updated_at : ActiveValue ℕ

pub data Column : Type 0 where
  id_column user_id_column token_column expires_at_column ip_address_column : Column
  user_agent_column active_column created_at_column updated_at_column : Column

-- The methods of `AuthSession`.
pub record AuthSession : Type 0 where
  pub id : String
  pub expires_at : ℕ
  pub token : String
  pub created_at : ℕ
  pub updated_at : ℕ
  pub ip_address : Option String
  pub user_agent : Option String
  pub user_id : String
  pub impersonated_by : Option String
  pub active_organization_id : Option String
  pub active : Bool

pub record CreateSession : Type 0 where
  pub user_id : String
  pub expires_at : ℕ
  pub ip_address : Option String
  pub user_agent : Option String

pub record Columns : Type 0 where
  pub id : Column
  pub token : Column
  pub user_id : Column
  pub active : Column
  pub expires_at : Column
  pub created_at : Column

unfoldable pub columns : Columns
columns = record {
  id = id_column;
  token = token_column;
  user_id = user_id_column;
  active = active_column;
  expires_at = expires_at_column;
  created_at = created_at_column;
}

abbrev pub filled : ℕ → Option ℕ → String → CreateSession → ℕ → ℕ → ActiveModel
filled new_v4 id token create_session now user_id = record {
  id = set (id_or new_v4 id);
  user_id = set user_id;
  token = set token;
  expires_at = set create_session.expires_at;
  ip_address = set create_session.ip_address;
  user_agent = set create_session.user_agent;
  active = set true;
  created_at = set now;
  updated_at = set now;
}

abbrev pub active_for : ℕ → Option ℕ → String → CreateSession → ℕ → Option ℕ → Option ActiveModel
active_for new_v4 id token create_session now none = none
active_for new_v4 id token create_session now (some user_id) =
    some (filled new_v4 id token create_session now user_id)

module _ (w : Wire) where
  unfoldable pub auth_session : Model → AuthSession
  auth_session m = record {
    id = w.uuid_text m.id;
    expires_at = m.expires_at;
    token = m.token;
    created_at = m.created_at;
    updated_at = m.updated_at;
    ip_address = m.ip_address;
    user_agent = m.user_agent;
    user_id = w.uuid_text m.user_id;
    impersonated_by = none;
    active_organization_id = none;
    active = m.active;
  }

  unfoldable pub parse_id : String → AuthResult ℕ
  parse_id id = parsed_or "Invalid session id" (w.parse_uuid id)

  unfoldable pub parse_user_id : String → AuthResult ℕ
  parse_user_id user_id = parsed_or "Invalid session user id" (w.parse_uuid user_id)

  -- `none` is the panic of `expect` at a user id that is no UUID.
  unfoldable pub new_active : ℕ → Option ℕ → String → CreateSession → ℕ → Option ActiveModel
  new_active new_v4 id token create_session now =
      active_for new_v4 id token create_session now (w.parse_uuid create_session.user_id)

unfoldable pub set_expires_at : ActiveModel → ℕ → ActiveModel
set_expires_at active expires_at = record active { expires_at = set expires_at }

unfoldable pub set_updated_at : ActiveModel → ℕ → ActiveModel
set_updated_at active updated_at = record active { updated_at = set updated_at }

unfoldable pub set_active_organization_id : ActiveModel → Option String → ActiveModel
set_active_organization_id active organization_id = active
