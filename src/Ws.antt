-- ===== src/Ws.antt =====
-- apps/api/src/ws.rs: the life of a WebSocket connection, over the relay.
pub mod Forwarding
pub mod World
use epistl.Prelude.{
  ℕ, zero, suc, String, ◌==◌, Bool, true, false, Option, none, some, List, [], ◌∷◌, if◌then◌else◌,
}
use epistl.Wire.{Wire}
use epistl.Registry.{Frame, text, close, Hub, send, insert, remove_if_current}
use epistl.Relay.JetStream.{JetStream}
use epistl.Relay.Sending.{Moment, St, handle_client_frame}
use epistl.Relay.Catchup.{deliver_queued_messages}

abbrev pub close_unauthorized : ℕ
close_unauthorized = 4001

abbrev pub close_replaced : ℕ
close_replaced = 4002

-- `axum::extract::ws::Message`, as far as the handler tells its cases apart.
pub data Message (T : Type 0) : Type 0 where
  text_message : T → Message T
  close_message : ℕ → String → Message T
  -- binary data, a ping or a pong
  other_message : Message T

-- `close_immediately`: all that an unauthorized socket is sent
unfoldable pub close_immediately : {T : Type 0} → ℕ → String → List (Message T)
close_immediately code reason = close_message code reason ∷ []

unfoldable pub frame_to_message : {T : Type 0} → Frame T → Message T
frame_to_message (text t) = text_message t
frame_to_message (close code reason) = close_message code reason

abbrev pub is_close : {T : Type 0} → Message T → Bool
is_close (text_message t) = false
is_close (close_message code reason) = true
is_close other_message = false

-- `forward_task`: the frames of the channel, and how many messages the sink takes before it fails.
-- The value is what the socket was sent.
unfoldable pub forward_task : {T : Type 0} → ℕ → List (Frame T) → List (Message T)
unfolding frame_to_message
forward_task sink [] = []
forward_task zero (f ∷ fs) = []
forward_task (suc sink) (f ∷ fs) =
    let rest = forward_task sink fs in
    let message = frame_to_message f in if is_close message then message ∷ [] else message ∷ rest

-- `ws_handler`: the user that `authenticate_token` finds goes on to a connection, and anyone else
-- is closed at once. The token of a request without one is the empty text.
pub data Upgrade (T : Type 0) : Type 0 where
  connection : ℕ → Upgrade T
  closed : List (Message T) → Upgrade T

module _ {T : Type 0} (authenticate_token : String → Option ℕ) where
  upgrade_of : Option ℕ → Upgrade T
  unfolding close_immediately
  upgrade_of none = closed (close_immediately close_unauthorized "unauthorized")
  upgrade_of (some user) = connection user

  unfoldable pub ws_handler : Option String → Upgrade T
  unfolding upgrade_of
  ws_handler none = upgrade_of (authenticate_token "")
  ws_handler (some token) = upgrade_of (authenticate_token token)

module _ (w : Wire) (j : JetStream w.Text) where
  unfoldable pub close_previous : Option ℕ → Hub w.Text → Hub w.Text
  close_previous none h = h
  close_previous (some previous) h =
      (send previous (close close_replaced "replaced by a new connection") h).1

  -- `handle_socket` up to its loop: the registration, and the catch-up.
  unfoldable pub connect : ℕ → ℕ → St w j → St w j
  unfolding close_previous
  connect user tx st =
      let (previous, h) = insert user tx st.hub in
      deliver_queued_messages w j user tx (record st { hub = close_previous previous h })

  -- One turn of the loop; the flag tells whether it goes on.
  unfoldable pub receive : Moment → ℕ → ℕ → Message w.Text → St w j → Bool × St w j
  receive m user tx (text_message t) st = handle_client_frame w j m user tx t st
  receive m user tx (close_message code reason) st = (false, st)
  receive m user tx other_message st = (true, st)

  -- The loop, over what the socket brings with the moment of each: `none` is a receive error, the
  -- end of the list the end of the stream.
  unfoldable pub receive_all : ℕ → ℕ → List (Moment × Option (Message w.Text)) → St w j → St w j
  unfolding receive
  receive_all user tx [] st = st
  receive_all user tx ((m, none) ∷ ms) st = st
  receive_all user tx ((m, some message) ∷ ms) st =
      let rest = receive_all user tx ms in
      let (go_on, st') = receive m user tx message st in if go_on then rest st' else st'

  -- After the loop: the registration is taken back and the receiver of the channel dropped.
  unfoldable pub disconnect : ℕ → ℕ → St w j → St w j
  disconnect user tx st =
      let h = remove_if_current user tx st.hub in
      record st { hub = record h { gone = tx ∷ h.gone } }

  unfoldable pub handle_socket : ℕ → ℕ → List (Moment × Option (Message w.Text)) → St w j → St w j
  unfolding connect receive_all disconnect
  handle_socket user tx ms st = disconnect user tx (receive_all user tx ms (connect user tx st))
