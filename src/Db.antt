-- ===== src/Db.antt =====
-- The tables of the API's Postgres database (apps/api/migrations), with the columns that the
-- modelled statements read or write.
pub mod Session
use epistl.Prelude.{ℕ, String, Bool, Option, List, []}

pub record User : Type 0 where
  pub id : ℕ
  pub email : String
  pub username : String
  pub image : Option String
  pub updated_at : ℕ

pub record Contact : Type 0 where
  pub id : ℕ
  pub owner_user_id : ℕ
  pub contact_user_id : ℕ
  pub created_at : ℕ

-- The column is text; its default and the one `UPDATE` write these two words alone.
pub data Status : Type 0 where
  pending declined : Status

pub record ContactRequest : Type 0 where
  pub id : ℕ
  pub requester_user_id : ℕ
  pub recipient_user_id : ℕ
  pub status : Status
  pub created_at : ℕ
  pub responded_at : Option ℕ

pub record UserKeys : Type 0 where
  pub user_id : ℕ
  pub x25519_public_key : List ℕ
  pub kyber_public_key : List ℕ
  pub dilithium_public_key : List ℕ
  pub prekey_signature : List ℕ
  pub updated_at : ℕ

pub record PushToken : Type 0 where
  pub id : ℕ
  pub user_id : ℕ
  pub token : String
  pub created_at : ℕ

pub record SessionRow : Type 0 where
  pub id : ℕ
  pub user_id : ℕ
  pub token : String

pub record AccountRow : Type 0 where
  pub id : ℕ
  pub user_id : ℕ
  pub provider_id : String

pub record Tables : Type 0 where
  pub users : List User
  pub sessions : List SessionRow
  pub accounts : List AccountRow
  pub contacts : List Contact
  pub contact_requests : List ContactRequest
  pub user_keys : List UserKeys
  pub push_tokens : List PushToken
