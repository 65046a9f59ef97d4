-- ===== src/Relay/Sending.antt =====
-- `handle_client_frame`, `handle_send` and `queue_for_offline_delivery` of apps/api/src/relay.rs.
-- The flag that they return is `is_ok()`: `false` ends the connection.
pub mod Ends
pub mod Keeps
pub mod Privacy
pub mod Replies
use epistl.Prelude.{
  ℕ, String, Bool, true, false, Option, none, some, List, [], ◌∷◌, ◌++◌, str_eq, if◌then◌else◌,
}
use epistl.Wire.{Wire}
use epistl.Registry.{get as registry_get}
use epistl.Relay.JetStream.{JetStream}
use epistl.Relay.Frames.{
  Task, redeliver, notify, Relay, message_frame, ack_frame, payload_of, str_field, emit, send_error,
}

-- What the surroundings answer while a frame is handled: the contact query (`none` is an error), and
-- the clock for a live message and for a queued one.
pub record Moment : Type 0 where
  pub is_contact : ℕ → ℕ → Option Bool
  pub live_at : ℕ
  pub queued_at : ℕ

-- `unwrap_or(false)`
unfoldable pub or_false : Option Bool → Bool
or_false none = false
or_false (some b) = b

module _ (w : Wire) (j : JetStream w.Text) where
  open w use {
    Value, Text, str, get, from_text, to_text, uuid_text, parse_uuid, base64_decode, rfc3339,
  }

  abbrev pub St : Type 0
  St = Relay Value Text j.Stream

  -- the state has the stream after the publish
  unfoldable pub published : Moment → ℕ → ℕ → String → ℕ → Option ℕ → St → Bool × St
  published m sender to body_b64 tx none st =
      send_error w tx "queue_unavailable" "message could not be queued for offline delivery" st
  published m sender to body_b64 tx (some sequence) st =
      let relay =
        message_frame w (str (uuid_text sender)) (str body_b64) (str (rfc3339 m.queued_at)) in
      emit w tx (ack_frame w to)
        (record st { tasks = st.tasks ++ redeliver to sequence relay ∷ notify to sender ∷ [] })

  unfoldable pub queue_for_offline_delivery : Moment → ℕ → ℕ → String → ℕ → St → Bool × St
  unfolding published
  queue_for_offline_delivery m sender to body_b64 tx st =
      let payload = to_text (payload_of w sender body_b64 (rfc3339 m.queued_at)) in
      let (sequence, stream) = j.publish to payload st.stream in
      published m sender to body_b64 tx sequence (record st { stream = stream })

  -- the send to a connected recipient, and its fallback
  unfoldable pub relay_live : Moment → ℕ → ℕ → String → ℕ → ℕ → St → Bool × St
  unfolding queue_for_offline_delivery
  relay_live m sender to body_b64 tx recipient_tx st =
      let relay =
        message_frame w (str (uuid_text sender)) (str body_b64) (str (rfc3339 m.live_at)) in
      let (ok, st') = emit w recipient_tx relay st in
      if ok
      then emit w tx (ack_frame w to) st'
      else queue_for_offline_delivery m sender to body_b64 tx st'

  unfoldable pub deliver : Moment → ℕ → ℕ → String → ℕ → Option ℕ → St → Bool × St
  unfolding queue_for_offline_delivery relay_live
  deliver m sender to body_b64 tx none st = queue_for_offline_delivery m sender to body_b64 tx st
  deliver m sender to body_b64 tx (some recipient_tx) st =
      relay_live m sender to body_b64 tx recipient_tx st

  unfoldable pub recipient_of : Value → Option ℕ
  recipient_of frame = elim (str_field w frame "to") [ none ↦ none | some s ↦ parse_uuid s ]

  valid_base64 : Option String → Option String
  valid_base64 none = none
  valid_base64 (some body) = elim (base64_decode body) [ none ↦ none | some bytes ↦ some body ]

  unfoldable pub body_of : Value → Option String
  unfolding valid_base64
  body_of frame = valid_base64 (str_field w frame "body_b64")

  unfoldable pub send_to_contact : Moment → ℕ → ℕ → String → ℕ → St → Bool × St
  unfolding or_false
  send_to_contact m sender to body_b64 tx st =
      if or_false (m.is_contact sender to)
      then deliver m sender to body_b64 tx (registry_get to st.hub) st
      else send_error w tx "not_a_contact" "recipient is not in your contacts" st

  -- the early returns on the two fields
  unfoldable pub send_fields : Moment → ℕ → ℕ → Option ℕ → Option String → St → Bool × St
  send_fields m sender tx none body st =
      send_error w tx "invalid_payload" "\"to\" must be a UUID string" st
  send_fields m sender tx (some to) none st =
      send_error w tx "invalid_payload" "\"body_b64\" must be valid base64" st
  send_fields m sender tx (some to) (some body_b64) st = send_to_contact m sender to body_b64 tx st

  unfoldable pub handle_send : Moment → ℕ → ℕ → Value → St → Bool × St
  unfolding send_fields
  handle_send m sender tx frame st = send_fields m sender tx (recipient_of frame) (body_of frame) st

  unfoldable pub is_send : Option String → Bool
  is_send none = false
  is_send (some kind) = str_eq kind "send"

  unfoldable pub handle_parsed : Moment → ℕ → ℕ → Option Value → St → Bool × St
  unfolding is_send
  handle_parsed m sender tx none st = send_error w tx "invalid_payload" "malformed JSON frame" st
  handle_parsed m sender tx (some parsed) st =
      if is_send (str_field w parsed "type")
      then handle_send m sender tx parsed st
      else send_error w tx "invalid_payload" "unknown or missing frame type" st

  unfoldable pub handle_client_frame : Moment → ℕ → ℕ → Text → St → Bool × St
  unfolding handle_parsed
  handle_client_frame m sender tx input st = handle_parsed m sender tx (from_text input) st
