-- ===== src/Auth/Entities/Verifications.antt =====
-- Verifications as better-auth sees them (apps/api/src/auth.rs).
use epistl.Prelude.{ℕ, String, Option}
use epistl.Wire.{Wire}
use epistl.Auth.Entities.{ActiveValue, set, AuthResult, parsed_or, id_or}

pub record Model : Type 0 where
  pub id : ℕ
  pub identifier : String
  pub code : String
  pub expires_at : ℕ
  pub created_at : ℕ
  pub updated_at : ℕ

pub record ActiveModel : Type 0 where
  pub id : ActiveValue ℕ
  pub identifier : ActiveValue String
  pub code : ActiveValue String
  pub expires_at : ActiveValue ℕ
  pub created_at : ActiveValue ℕ
  pub updated_at : ActiveValue ℕ

pub data Column : Type 0 where
  id_column identifier_column value_column expires_at_column : Column
  created_at_column updated_at_column : Column

-- The methods of `AuthVerification`; `code` is its `value`.
pub record AuthVerification : Type 0 where
  pub id : String
  pub identifier : String
  pub code : String
  pub expires_at : ℕ
  pub created_at : ℕ
  pub updated_at : ℕ

pub record CreateVerification : Type 0 where
  pub identifier : String
  pub code : String
  pub expires_at : ℕ

pub record Columns : Type 0 where
  pub id : Column
  pub identifier : Column
  pub code : Column
  pub expires_at : Column
  pub created_at : Column

unfoldable pub columns : Columns
columns = record {
  id = id_column;
  identifier = identifier_column;
  code = value_column;
  expires_at = expires_at_column;
  created_at = created_at_column;
}

module _ (w : Wire) where
  unfoldable pub auth_verification : Model → AuthVerification
  auth_verification m = record {
    id = w.uuid_text m.id;
    identifier = m.identifier;
    code = m.code;
    expires_at = m.expires_at;
    created_at = m.created_at;
    updated_at = m.updated_at;
  }

  unfoldable pub parse_id : String → AuthResult ℕ
  parse_id id = parsed_or "Invalid verification id" (w.parse_uuid id)

unfoldable pub new_active : ℕ → Option ℕ → CreateVerification → ℕ → ActiveModel
new_active new_v4 id verification now = record {
  id = set (id_or new_v4 id);
  identifier = set verification.identifier;
  code = set verification.code;
  expires_at = set verification.expires_at;
  created_at = set now;
  updated_at = set now;
}
