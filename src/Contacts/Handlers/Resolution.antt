-- ===== src/Contacts/Handlers/Resolution.antt =====
-- The handlers of apps/api/src/contacts.rs that resolve a request.
use epistl.Prelude.{ℕ, ◌==◌, not, Option, none, some, if◌then◌else◌}
use epistl.Wire.{Wire}
use epistl.Http.{Response, error, no_content, internal_error}
use epistl.Db.{ContactRequest}
use epistl.Db.Session.{
  pure, return, ◌>>=◌, ◌>>◌, query, begin, execute, commit, or_return, return_if,
}
use epistl.Contacts.Sql.{
  is_pending, insert_contacts_both_ways, request_by_id, delete_request, decline_request,
}
use epistl.Contacts.Handlers.Frames.{
  Caller, LoadPendingRequestError, not_found, internal, forbidden, Loaded, loaded, refused, Reply,
  push_frame, accepted_frame,
}

module _ (w : Wire) where
  open w use {Value, Text, str, arr, obj, null, to_text, uuid_text, base64_encode, timestamp, lower}

  -- `LoadPendingRequestError::into_response`, with `request_not_found_error`
  unfoldable pub into_response : LoadPendingRequestError → Response Value
  into_response not_found = error w 404 "request_not_found"
  into_response (forbidden code) = error w 403 code
  into_response internal = internal_error w

  unfoldable pub or_respond : {A : Type 0} → Loaded A → Reply w A
  unfolding into_response
  or_respond (loaded a) = pure a
  or_respond (refused e) = return (into_response e)

  unfoldable pub check_recipient : ℕ → Option (Option ContactRequest) → Loaded (ℕ × ℕ)
  check_recipient caller none = refused internal
  check_recipient caller (some none) = refused not_found
  check_recipient caller (some (some r)) =
      if not (r.recipient_user_id == caller)
      then refused (forbidden "not_recipient")
      else if not (is_pending r.status)
      then refused not_found
      else loaded (r.requester_user_id, r.recipient_user_id)

  unfoldable pub load_pending_request_as_recipient : ℕ → ℕ → Reply w (Loaded (ℕ × ℕ))
  unfolding check_recipient
  load_pending_request_as_recipient request_id caller_id = do
    row ← query (request_by_id request_id)
    pure (check_recipient caller_id row)

  unfoldable pub check_requester : ℕ → Option (Option ContactRequest) → Loaded Unit
  check_requester caller none = refused internal
  check_requester caller (some none) = refused not_found
  check_requester caller (some (some r)) =
      if not (r.requester_user_id == caller)
      then refused (forbidden "not_requester")
      else if not (is_pending r.status)
      then refused not_found
      else loaded tt

  unfoldable pub load_pending_request_as_requester : ℕ → ℕ → Reply w (Loaded Unit)
  unfolding check_requester
  load_pending_request_as_requester request_id caller_id = do
    row ← query (request_by_id request_id)
    pure (check_requester caller_id row)

  unfoldable pub accept_contact_request : Caller → ℕ → Reply w (Response Value)
  unfolding load_pending_request_as_recipient or_respond push_frame accepted_frame
  accept_contact_request user request_id = do
    open? ← begin
    return_if (not open?) (internal_error w)
    checked ← load_pending_request_as_recipient request_id user.id
    (requester_id, recipient_id) ← or_respond checked
    inserted ← execute (λ uuid. insert_contacts_both_ways requester_id recipient_id uuid)
    or_return inserted (internal_error w)
    deleted ← execute (λ _ _. delete_request request_id)
    rows ← or_return deleted (internal_error w)
    return_if (rows == 0) (into_response not_found)
    done ← commit
    return_if (not done) (internal_error w)
    push_frame w requester_id (accepted_frame w request_id user)
    pure (no_content w)

  unfoldable pub cancel_contact_request : Caller → ℕ → Reply w (Response Value)
  unfolding load_pending_request_as_requester or_respond
  cancel_contact_request user request_id = do
    open? ← begin
    return_if (not open?) (internal_error w)
    checked ← load_pending_request_as_requester request_id user.id
    or_respond checked
    deleted ← execute (λ _ _. delete_request request_id)
    rows ← or_return deleted (internal_error w)
    return_if (rows == 0) (into_response not_found)
    done ← commit
    return_if (not done) (internal_error w)
    pure (no_content w)

  unfoldable pub decline_contact_request : Caller → ℕ → Reply w (Response Value)
  unfolding load_pending_request_as_recipient or_respond
  decline_contact_request user request_id = do
    open? ← begin
    return_if (not open?) (internal_error w)
    checked ← load_pending_request_as_recipient request_id user.id
    or_respond checked
    updated ← execute (λ _. decline_request request_id)
    rows ← or_return updated (internal_error w)
    return_if (rows == 0) (into_response not_found)
    done ← commit
    return_if (not done) (internal_error w)
    pure (no_content w)
