-- ===== src/Contacts/Handlers/Creation.antt =====
-- The handlers of apps/api/src/contacts.rs that make and list requests.
use epistl.Prelude.{ℕ, String, ◌==◌, Option, none, some, get_or, [], ◌∷◌, map, if◌then◌else◌}
use epistl.Wire.{Wire}
use epistl.Http.{Response, json, error, internal_error}
use epistl.Db.{ContactRequest}
use epistl.Db.Session.{pure, return, ◌>>=◌, ◌>>◌, query, autocommit, or_return, return_if}
use epistl.Contacts.Sql.{
  is_pending, user_by_email, user_by_username, contact_either_way, pending_request, insert_request,
  PartyView, incoming_of, outgoing_of,
}
use epistl.Contacts.Handlers.Frames.{Caller, Reply, push_frame, request_frame}

module _ (w : Wire) where
  open w use {Value, Text, str, arr, obj, null, to_text, uuid_text, base64_encode, timestamp, lower}

  -- the match on (email, username) with the query of each case
  unfoldable pub find_target :
      Option String → Option String → Reply w (Option (Option (ℕ × String)))
  find_target (some _) (some _) = return (error w 400 "invalid_request")
  find_target none (some username) = query (user_by_username (lower username))
  find_target email none = query (user_by_email (get_or email ""))

  unfoldable pub request_row : ContactRequest → Value
  request_row r = obj (
      ("id", str (uuid_text r.id))
      ∷ ("requester_user_id", str (uuid_text r.requester_user_id))
      ∷ ("recipient_user_id", str (uuid_text r.recipient_user_id))
      ∷ ("status", str (if is_pending r.status then "pending" else "declined"))
      ∷ ("created_at", str (timestamp r.created_at))
      ∷ [])

  -- the reply to a crossed request, which names the one to accept
  unfoldable pub incoming_exists : ℕ → Response Value
  incoming_exists request_id = json w 409 (
      obj (
        ("error", str "incoming_request_exists") ∷ ("request_id", str (uuid_text request_id)) ∷ []))

  unfoldable pub return_some : {A : Type 0} → Option A → (A → Response Value) → Reply w Unit
  return_some none r = pure tt
  return_some (some a) r = return (r a)

  unfoldable pub create_contact_request :
      Caller → Option String → Option String → Reply w (Response Value)
  unfolding find_target request_row return_some incoming_exists push_frame request_frame
  create_contact_request user email username = do
    target ← find_target email username
    found ← or_return target (internal_error w)
    (target_id, _) ← or_return found (error w 404 "user_not_found")
    return_if (target_id == user.id) (error w 400 "cannot_add_self")
    already ← query (contact_either_way user.id target_id)
    already_contact ← or_return already (internal_error w)
    return_if already_contact (error w 409 "already_contact")
    crossed ← query (pending_request target_id user.id)
    incoming ← or_return crossed (internal_error w)
    return_some incoming incoming_exists
    inserted ← autocommit (λ uuid. insert_request user.id target_id (uuid 0))
    row ← or_return inserted (internal_error w)
    request ← or_return row (error w 409 "already_pending")
    push_frame w target_id (request_frame w request user)
    pure (json w 201 (request_row request))

  party : PartyView → Value
  party v = obj (
      ("id", str (uuid_text v.id))
      ∷ ("user_id", str (uuid_text v.user_id))
      ∷ ("email", str v.email)
      ∷ ("username", str v.username)
      ∷ ("created_at", str (timestamp v.created_at))
      ∷ [])

  unfoldable pub list_contact_requests : Caller → Reply w (Response Value)
  unfolding party
  list_contact_requests user = do
    incoming ← query (incoming_of user.id)
    incoming_rows ← or_return incoming (internal_error w)
    outgoing ← query (outgoing_of user.id)
    outgoing_rows ← or_return outgoing (internal_error w)
    pure (
        json w 200 (
          obj (
            ("incoming", arr (map party incoming_rows))
            ∷ ("outgoing", arr (map party outgoing_rows))
            ∷ [])))
