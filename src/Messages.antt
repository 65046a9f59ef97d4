-- ===== src/Messages.antt =====
-- apps/api/src/messages.rs: the read-only look at the oldest queued message from a sender.
pub mod Scan
use Prim.Native.Nat.{◌^◌, ◌%◌}
use epistl.Prelude.{
  ℕ, zero, suc, ◌+◌, String, Bool, Option, none, some, false, [], ◌∷◌, str_eq, if◌then◌else◌,
}
use epistl.Wire.{Wire}
use epistl.Http.{Response, json, error, internal_error}
use epistl.Relay.JetStream.{Queued, JetStream}
use epistl.Relay.Frames.{str_field, or_null}

abbrev pub max_queued_messages_per_fetch : ℕ
max_queued_messages_per_fetch = 256

module _ (w : Wire) where
  open w use {Value, Text, obj, get, from_text, uuid_text}

  abbrev pub not_found : Response Value
  not_found = error w 404 "not_found"

  names_sender : String → Option String → Bool
  names_sender from none = false
  names_sender from (some s) = str_eq s from

  unfoldable pub envelope : Value → Response Value
  envelope p = json w 200 (
      obj (
        ("from", or_null w (get p "from"))
        ∷ ("body_b64", or_null w (get p "body_b64"))
        ∷ ("sent_at", or_null w (get p "sent_at"))
        ∷ []))

  -- the payload of a message, and the turns that are left
  unfoldable pub of_payload : String → Option Value → Response Value → Response Value
  unfolding envelope names_sender
  of_payload from none rest = rest
  of_payload from (some p) rest =
      if names_sender from (str_field w p "from") then envelope p else rest

  -- one turn of the loop, with the answer of the stream
  unfoldable pub inspect :
      String → (ℕ → Response Value) → Option (Option (Queued Text)) → Response Value
  unfolding of_payload
  inspect from rest none = internal_error w
  inspect from rest (some none) = not_found
  inspect from rest (some (some raw)) =
      of_payload from (from_text raw.payload) (rest ((raw.sequence + 1) % 2 ^ 64))

  module _ (j : JetStream w.Text) where
    -- The loop: the turns left, and the stream as each turn finds it.
    unfoldable pub walk : (ℕ → j.Stream) → ℕ → String → ℕ → ℕ → ℕ → Response Value
    unfolding inspect
    walk at user from i zero next_seq = not_found
    walk at user from i (suc turns) next_seq =
        inspect from (λ next. walk at user from (suc i) turns next)
          (j.first_from user next_seq (at i))

    -- `none` for a stream that the client cannot open
    unfoldable pub get_queued : Option (ℕ → j.Stream) → ℕ → ℕ → Response Value
    unfolding walk
    get_queued none user from_user_id = internal_error w
    get_queued (some at) user from_user_id =
        walk at user (uuid_text from_user_id) 0 max_queued_messages_per_fetch 0
