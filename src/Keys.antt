-- ===== src/Keys.antt =====
-- apps/api/src/keys.rs: a user's public key bundle.
pub mod Stored
pub mod Upload
use epistl.Prelude.{
  ℕ, String, ◌==◌, not, Option, none, some, List, [], ◌∷◌, ◌++◌, any, map, length, if◌then◌else◌,
}
use epistl.Wire.{Wire}
use epistl.Http.{Response, json, internal_error, bad_request}
use epistl.Db.{UserKeys, Tables}
use epistl.Db.Session.{Write, ◌>>=◌, ◌>>◌, pure, autocommit, or_return, return_if}
use epistl.Contacts.Sql.{has_user}
use epistl.Contacts.Handlers.{Caller, Reply}

abbrev pub x25519_public_key_len : ℕ
x25519_public_key_len = 32

abbrev pub kyber_public_key_len : ℕ
kyber_public_key_len = 1184

abbrev pub dilithium_public_key_len : ℕ
dilithium_public_key_len = 1952

abbrev pub prekey_signature_len : ℕ
prekey_signature_len = 3309

pub record UploadKeysPayload : Type 0 where
  pub x25519_public_key_b64 : Option String
  pub kyber_public_key_b64 : Option String
  pub dilithium_public_key_b64 : Option String
  pub prekey_signature_b64 : Option String

-- What the fields decode to.
pub record Bundle : Type 0 where
  pub x25519 : List ℕ
  pub kyber : List ℕ
  pub dilithium : List ℕ
  pub prekey_signature : List ℕ

abbrev pub keys_row : ℕ → Bundle → ℕ → UserKeys
keys_row user b now = record {
  user_id = user;
  x25519_public_key = b.x25519;
  kyber_public_key = b.kyber;
  dilithium_public_key = b.dilithium;
  prekey_signature = b.prekey_signature;
  updated_at = now;
}

-- INSERT INTO user_keys … ON CONFLICT (user_id) DO UPDATE SET … RETURNING updated_at
unfoldable pub upsert_keys : ℕ → Bundle → ℕ → Write ℕ
upsert_keys user b now t =
    if any (λ (k : UserKeys). k.user_id == user) t.user_keys
    then some (
      now,
      record t {
        user_keys =
            map (λ (k : UserKeys). if k.user_id == user then keys_row user b now else k)
              t.user_keys;
      },
    )
    else if has_user user t
    then some (now, record t { user_keys = t.user_keys ++ keys_row user b now ∷ [] })
    else none

module _ (w : Wire) where
  open w use {Value, str, obj, uuid_text, timestamp, base64_decode}

  unfoldable pub decode_field : Option String → Option (List ℕ)
  decode_field none = none
  decode_field (some field) = base64_decode field

  unfoldable pub upload_keys : Caller → UploadKeysPayload → Reply w (Response Value)
  upload_keys user payload = do
    x25519 ← or_return (decode_field payload.x25519_public_key_b64) (bad_request w "invalid_input")
    kyber ← or_return (decode_field payload.kyber_public_key_b64) (bad_request w "invalid_input")
    dilithium ←
        or_return (decode_field payload.dilithium_public_key_b64) (bad_request w "invalid_input")
    prekey_signature ←
        or_return (decode_field payload.prekey_signature_b64) (bad_request w "invalid_input")
    return_if (not (length x25519 == x25519_public_key_len)) (bad_request w "invalid_x25519_key")
    return_if (not (length kyber == kyber_public_key_len)) (bad_request w "invalid_kyber_key")
    return_if (not (length dilithium == dilithium_public_key_len))
        (bad_request w "invalid_dilithium_key")
    return_if (not (length prekey_signature == prekey_signature_len))
        (bad_request w "invalid_prekey_signature")
    let bundle : Bundle = record {
      x25519 = x25519;
      kyber = kyber;
      dilithium = dilithium;
      prekey_signature = prekey_signature;
    }
    upserted ← autocommit (λ _. upsert_keys user.id bundle)
    updated_at ← or_return upserted (internal_error w)
    pure (
        json w 200 (
          obj (
            ("user_id", str (uuid_text user.id))
            ∷ ("updated_at", str (timestamp updated_at))
            ∷ [])))
