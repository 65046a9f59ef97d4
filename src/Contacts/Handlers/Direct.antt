-- ===== src/Contacts/Handlers/Direct.antt =====
-- The handlers of apps/api/src/contacts.rs that work on contacts without a request.
use epistl.Prelude.{ℕ, String, ◌==◌, not, Option, none, some, get_or, List, [], ◌∷◌, map}
use epistl.Wire.{Wire}
use epistl.Http.{Response, json, error, no_content, internal_error}
use epistl.Db.{UserKeys}
use epistl.Db.Session.{
  pure, ◌>>=◌, ◌>>◌, query, begin, execute, commit, autocommit, or_return, return_if,
}
use epistl.Contacts.Sql.{user_by_email, insert_contact, delete_contact, ContactRow, contacts_of}
use epistl.Contacts.Handlers.Frames.{Caller, Reply, push_frame, removed_frame}

module _ (w : Wire) where
  open w use {Value, Text, str, arr, obj, null, to_text, uuid_text, base64_encode, timestamp, lower}

  abbrev key_text : (UserKeys → List ℕ) → Option UserKeys → Value
  key_text field none = null
  key_text field (some k) = str (base64_encode (field k))

  -- `ContactView::from`, serialized
  contact_view : ContactRow → Value
  contact_view r = obj (
      ("user_id", str (uuid_text r.user_id))
      ∷ ("email", str r.email)
      ∷ ("username", str r.username)
      ∷ ("added_at", str (timestamp r.added_at))
      ∷ ("x25519_public_key_b64", key_text (λ k. k.x25519_public_key) r.keys)
      ∷ ("kyber_public_key_b64", key_text (λ k. k.kyber_public_key) r.keys)
      ∷ ("dilithium_public_key_b64", key_text (λ k. k.dilithium_public_key) r.keys)
      ∷ ("prekey_signature_b64", key_text (λ k. k.prekey_signature) r.keys)
      ∷ [])

  unfoldable pub list_contacts : Caller → Reply w (Response Value)
  unfolding contact_view
  list_contacts user = do
    contacts ← query (contacts_of user.id)
    rows ← or_return contacts (internal_error w)
    pure (json w 200 (obj (("contacts", arr (map contact_view rows)) ∷ [])))

  unfoldable pub add_contact : Caller → Option String → Reply w (Response Value)
  add_contact user email = do
    target ← query (user_by_email (get_or email ""))
    found ← or_return target (internal_error w)
    (target_id, target_email) ← or_return found (error w 404 "user_not_found")
    return_if (target_id == user.id) (error w 400 "cannot_add_self")
    inserted ← autocommit (λ uuid. insert_contact user.id target_id (uuid 0))
    row ← or_return inserted (internal_error w)
    added_at ← or_return row (error w 409 "already_added")
    pure (
        json w 201 (
          obj (
            ("user_id", str (uuid_text target_id))
            ∷ ("email", str target_email)
            ∷ ("added_at", str (timestamp added_at))
            ∷ [])))

  unfoldable pub remove_contact : Caller → ℕ → Reply w (Response Value)
  unfolding push_frame removed_frame
  remove_contact user contact_user_id = do
    open? ← begin
    return_if (not open?) (internal_error w)
    deleted ← execute (λ _ _. delete_contact user.id contact_user_id)
    rows ← or_return deleted (internal_error w)
    return_if (rows == 0) (error w 404 "not_found")
    reverse_deleted ← execute (λ _ _. delete_contact contact_user_id user.id)
    or_return reverse_deleted (internal_error w)
    done ← commit
    return_if (not done) (internal_error w)
    push_frame w contact_user_id (removed_frame w user)
    pure (no_content w)
