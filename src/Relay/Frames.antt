-- ===== src/Relay/Frames.antt =====
-- The JSON frames of apps/api/src/relay.rs and the state that it works on.
use epistl.Prelude.{ℕ, String, ◌≡◌, Bool, true, false, Option, none, some, List, [], ◌∷◌, ◌++◌}
use epistl.Wire.{Wire}
use epistl.Registry.{text, Hub, is_gone, send}

-- A background task that `queue_for_offline_delivery` spawns.
pub data Task (V : Type 0) : Type 0 where
  -- to, sequence, relay
  redeliver : ℕ → ℕ → V → Task V
  -- to, from
  notify : ℕ → ℕ → Task V

-- A call of `PushNotifier::send_push`: token, title, body, data.
pub record Push (V : Type 0) : Type 0 where
  pub token : String
  pub title : String
  pub body : String
  pub data_value : V

pub record Relay (V T S : Type 0) : Type 0 where
  pub hub : Hub T
  pub stream : S
  pub tasks : List (Task V)
  pub pushes : List (Push V)

module _ (w : Wire) where
  open w use {Value, Text, str, obj, get, as_str, null, to_text, uuid_text}

  unfoldable pub message_frame : Value → Value → Value → Value
  message_frame from body_b64 sent_at = obj (
      ("type", str "message") ∷ ("from", from) ∷ ("body_b64", body_b64) ∷ ("sent_at", sent_at) ∷ [])

  unfoldable pub ack_frame : ℕ → Value
  ack_frame to = obj (("type", str "ack") ∷ ("to", str (uuid_text to)) ∷ [])

  unfoldable pub error_frame : String → String → Value
  error_frame code message =
      obj (("type", str "error") ∷ ("code", str code) ∷ ("message", str message) ∷ [])

  -- `queue_for_offline_delivery`'s payload
  unfoldable pub payload_of : ℕ → String → String → Value
  payload_of sender body_b64 sent_at = obj (
      ("from", str (uuid_text sender)) ∷ ("body_b64", str body_b64) ∷ ("sent_at", str sent_at) ∷ [])

  -- `frame.get(name).and_then(Value::as_str)`
  unfoldable pub str_field : Value → String → Option String
  str_field v name = elim (get v name) [ none ↦ none | some x ↦ as_str x ]

  -- an `Option<&Value>` in `json!`
  unfoldable pub or_null : Option Value → Value
  or_null none = null
  or_null (some v) = v

  -- `tx.send(Frame::Text(frame.to_string()))`
  unfoldable pub send_value : ℕ → Value → Hub Text → Bool × Hub Text
  send_value tx v h = send tx (text (to_text v)) h

  module _ {S : Type 0} where
    -- with the rest of the state; the flag is `is_ok()`
    unfoldable pub emit : ℕ → Value → Relay Value Text S → Bool × Relay Value Text S
    emit tx v st = let (ok, h) = send_value tx v st.hub in (ok, record st { hub = h })

    unfoldable pub send_error : ℕ → String → String → Relay Value Text S → Bool × Relay Value Text S
    unfolding error_frame emit
    send_error tx code message st = emit tx (error_frame code message) st

    -- The state after a frame has gone out.
    abbrev pub sent_on : ℕ → Value → Relay Value Text S → Relay Value Text S
    sent_on tx v st = record st {
      hub = record st.hub { sent = st.hub.sent ++ (tx, text (to_text v)) ∷ [] };
    }

    pub emit_gone :
        (tx : ℕ) (v : Value) (st : Relay Value Text S)
        → is_gone st.hub tx ≡ true
        → emit tx v st ≡ (false, st)
    unfolding emit send_value send
    emit_gone tx v st h = rw h

    pub emit_open :
        (tx : ℕ) (v : Value) (st : Relay Value Text S)
        → is_gone st.hub tx ≡ false
        → emit tx v st ≡ (true, sent_on tx v st)
    unfolding emit send_value send
    emit_open tx v st h = rw h
