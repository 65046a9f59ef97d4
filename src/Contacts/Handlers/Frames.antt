-- ===== src/Contacts/Handlers/Frames.antt =====
-- The caller, and the frames that the handlers of apps/api/src/contacts.rs push.
use epistl.Prelude.{ℕ, String, Option, none, some, [], ◌∷◌}
use epistl.Wire.{Wire}
use epistl.Registry.{Hub, Frame, text, send, get as registry_get}
use epistl.Db.{ContactRequest}
use epistl.Db.Session.{value, Handler}

-- The fields of `AuthenticatedUser` that the handlers read.
pub record Caller : Type 0 where
  pub id : ℕ
  pub email : String

-- `LoadPendingRequestError`
pub data LoadPendingRequestError : Type 0 where
  not_found internal : LoadPendingRequestError
  forbidden : String → LoadPendingRequestError

pub data Loaded (A : Type 0) : Type 0 where
  loaded : A → Loaded A
  refused : LoadPendingRequestError → Loaded A

unfoldable pub push_to : {T : Type 0} → Option ℕ → Frame T → Hub T → Hub T
unfolding send
push_to none f h = h
push_to (some tx) f h = (send tx f h).1

module _ (w : Wire) where
  open w use {Value, Text, str, arr, obj, null, to_text, uuid_text, base64_encode, timestamp, lower}

  abbrev pub Reply : Type 0 → Type 0
  Reply = Handler Value Text

  unfoldable pub push_frame : ℕ → Value → Reply Unit
  unfolding push_to registry_get
  push_frame u frame env c =
      (value tt, record c { hub = push_to (registry_get u c.hub) (text (to_text frame)) c.hub })

  unfoldable pub removed_frame : Caller → Value
  removed_frame user = obj (
      ("type", str "contact_removed")
      ∷ ("user_id", str (uuid_text user.id))
      ∷ ("email", str user.email)
      ∷ [])

  unfoldable pub request_frame : ContactRequest → Caller → Value
  request_frame r user = obj (
      ("type", str "contact_request")
      ∷ ("request_id", str (uuid_text r.id))
      ∷ ("requester_user_id", str (uuid_text user.id))
      ∷ ("requester_email", str user.email)
      ∷ [])

  unfoldable pub accepted_frame : ℕ → Caller → Value
  accepted_frame request_id user = obj (
      ("type", str "contact_accepted")
      ∷ ("request_id", str (uuid_text request_id))
      ∷ ("acceptor_user_id", str (uuid_text user.id))
      ∷ ("acceptor_email", str user.email)
      ∷ [])
