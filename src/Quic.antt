-- ===== src/Quic.antt =====
-- apps/api/src/quic.rs: the life of a QUIC connection, over the same relay as ws.rs.
pub mod Mirrors
pub mod Authentication
pub mod Endpoint
use epistl.Prelude.{
  ℕ, zero, suc, String, Bool, true, false, Option, none, some, List, [], ◌∷◌, str_eq, if◌then◌else◌,
}
use epistl.Wire.{Wire}
use epistl.Registry.{Frame, text, close, Hub, send, insert, remove_if_current}
use epistl.Relay.JetStream.{JetStream}
use epistl.Relay.Frames.{str_field}
use epistl.Relay.Sending.{Moment, St, handle_client_frame}
use epistl.Relay.Catchup.{deliver_queued_messages}

abbrev pub close_unauthorized : ℕ
close_unauthorized = 4001

abbrev pub close_replaced : ℕ
close_replaced = 4002

-- What `read_line` brings, a line without its line end.
pub data Read (T : Type 0) : Type 0 where
  line : T → Read T
  eof failed : Read T

-- What goes out: bytes and line ends on the stream, and the close of the connection.
pub data Out (T : Type 0) : Type 0 where
  bytes : T → Out T
  newline : Out T
  closed : ℕ → String → Out T

-- `forward_frames`: the frames of the channel, and how many writes the stream takes before one fails.
unfoldable pub forward_frames : {T : Type 0} → ℕ → List (Frame T) → List (Out T)
forward_frames writes [] = []
forward_frames writes (close code reason ∷ fs) = closed code reason ∷ []
forward_frames zero (text t ∷ fs) = []
forward_frames (suc zero) (text t ∷ fs) = bytes t ∷ []
forward_frames (suc (suc writes)) (text t ∷ fs) = bytes t ∷ newline ∷ forward_frames writes fs

module _ (w : Wire) (authenticate_token : String → Option ℕ) where
  open w use {Value, Text, from_text}

  of_token : Option String → Option ℕ
  of_token none = none
  of_token (some token) = authenticate_token token

  is_auth : Option String → Bool
  is_auth none = false
  is_auth (some kind) = str_eq kind "auth"

  of_frame : Option Value → Option ℕ
  unfolding of_token is_auth
  of_frame none = none
  of_frame (some parsed) =
      if is_auth (str_field w parsed "type") then of_token (str_field w parsed "token") else none

  unfoldable pub authenticate_first_frame : Read Text → Option ℕ
  unfolding of_frame
  authenticate_first_frame (line t) = of_frame (from_text t)
  authenticate_first_frame eof = none
  authenticate_first_frame failed = none

module _ (w : Wire) (j : JetStream w.Text) where
  unfoldable pub close_previous : Option ℕ → Hub w.Text → Hub w.Text
  close_previous none h = h
  close_previous (some previous) h =
      (send previous (close close_replaced "replaced by a new connection") h).1

  -- the loop over the lines, with the moment of each; the end of the list is the end of the stream
  unfoldable pub read_all : ℕ → ℕ → List (Moment × Read w.Text) → St w j → St w j
  read_all user tx [] st = st
  read_all user tx ((m, eof) ∷ rs) st = st
  read_all user tx ((m, failed) ∷ rs) st = st
  read_all user tx ((m, line t) ∷ rs) st =
      let rest = read_all user tx rs in
      let (go_on, st') = handle_client_frame w j m user tx t st in if go_on then rest st' else st'

  -- `handle_connection` for an authenticated user: the registration, the catch-up, the loop, and the end.
  unfoldable pub relay_connection : ℕ → ℕ → List (Moment × Read w.Text) → St w j → St w j
  unfolding close_previous read_all
  relay_connection user tx rs st =
      let (previous, h) = insert user tx st.hub in
      let caught_up =
        deliver_queued_messages w j user tx (record st { hub = close_previous previous h }) in
      let st' = read_all user tx rs caught_up in
      let h' = remove_if_current user tx st'.hub in
      record st' { hub = record h' { gone = tx ∷ h'.gone } }

  connection_of : Option ℕ → ℕ → List (Moment × Read w.Text) → St w j → List (Out w.Text) × St w j
  unfolding relay_connection
  connection_of none tx rs st = (closed close_unauthorized "unauthorized" ∷ [], st)
  connection_of (some user) tx rs st = ([], relay_connection user tx rs st)

  -- The first line, and those after it; the value has the close of an unauthorized connection.
  unfoldable pub handle_connection :
      (String → Option ℕ)
      → ℕ
      → Read w.Text
      → List (Moment × Read w.Text)
      → St w j
      → List (Out w.Text) × St w j
  unfolding connection_of
  handle_connection authenticate_token tx first rs st =
      connection_of (authenticate_first_frame w authenticate_token first) tx rs st
