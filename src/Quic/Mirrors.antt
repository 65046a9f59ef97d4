-- ===== src/Quic/Mirrors.antt =====
-- A QUIC connection does what a WebSocket does (apps/api/src/quic.rs, ws.rs).
use epistl.Prelude.{
  ℕ, suc, ◌*◌, ◌≡◌, refl, ap, ◌∙◌, inl, inr, Option, none, some, List, [], ◌∷◌, length, arith,
  Bool-cases,
}
use epistl.Wire.{Wire}
use epistl.Registry.{Hub, Frame, text, close, insert}
use epistl.Relay.JetStream.{JetStream}
use epistl.Relay.Sending.{Moment, St, handle_client_frame}
use epistl.Relay.Catchup.{deliver_queued_messages}
use epistl.Ws.{
  Message, text_message, close_message, other_message, forward_task, frame_to_message, receive_all,
  receive, connect, disconnect, handle_socket, close_previous as ws_close_previous,
}
use epistl.Quic.{
  Read, line, eof, failed, Out, bytes, newline, closed, forward_frames, close_previous, read_all,
  relay_connection,
}

-- The messages of a WebSocket with the same contents.
abbrev pub socket_reads : {T : Type 0} → List (Moment × Read T) → List (Moment × Option (Message T))
socket_reads [] = []
socket_reads ((m, line t) ∷ rs) = (m, some (text_message t)) ∷ socket_reads rs
socket_reads ((m, eof) ∷ rs) = []
socket_reads ((m, failed) ∷ rs) = (m, none) ∷ socket_reads rs

abbrev pub encode : {T : Type 0} → List (Message T) → List (Out T)
encode [] = []
encode (text_message t ∷ ms) = bytes t ∷ newline ∷ encode ms
encode (close_message code reason ∷ ms) = closed code reason ∷ encode ms
encode (other_message ∷ ms) = encode ms

module _ (w : Wire) (j : JetStream w.Text) (user tx : ℕ) where
  read_all-receive_all :
      (rs : List (Moment × Read w.Text)) (st : St w j)
      → read_all w j user tx rs st ≡ receive_all w j user tx (socket_reads rs) st
  unfolding read_all receive_all receive
  read_all-receive_all [] st = refl
  read_all-receive_all ((m, eof) ∷ rs) st = refl
  read_all-receive_all ((m, failed) ∷ rs) st = refl
  read_all-receive_all ((m, line t) ∷ rs) st =
      elim (Bool-cases (handle_client_frame w j m user tx t st).0) [
        | inl e ↦ rw e (read_all-receive_all rs (handle_client_frame w j m user tx t st).1)
        | inr e ↦ rw e refl
      ]

  same_close : (o : Option ℕ) (h : Hub w.Text) → close_previous w j o h ≡ ws_close_previous w j o h
  unfolding close_previous ws_close_previous
  same_close none h = refl
  same_close (some c) h = refl

  -- Once its user is authenticated, a QUIC connection leaves behind what a WebSocket with the same
  -- contents does: the registry, the frames, the queue and the tasks.
  pub relay_connection-handle_socket :
      (rs : List (Moment × Read w.Text)) (st : St w j)
      → relay_connection w j user tx rs st ≡ handle_socket w j user tx (socket_reads rs) st
  unfolding relay_connection handle_socket connect disconnect close_previous
  relay_connection-handle_socket rs st =
      let start = deliver_queued_messages w j user tx (record st {
        hub = close_previous w j (insert user tx st.hub).0 (insert user tx st.hub).1;
      }) in
      ap (disconnect w j user tx) (
        read_all-receive_all rs start
        ∙ ap
            (λ h.
              receive_all w j user tx (socket_reads rs)
                (deliver_queued_messages w j user tx (record st { hub = h })))
            (same_close (insert user tx st.hub).0 (insert user tx st.hub).1))

double : (n : ℕ) → 2 * suc n ≡ suc (suc (2 * n))
double n = omega arith

-- While no write fails, a QUIC client gets the texts that a WebSocket client gets, each on a line of
-- its own, and the close that it gets.
pub forward_frames-forward_task :
    {T : Type 0} (fs : List (Frame T))
    → forward_frames (2 * length fs) fs ≡ encode (forward_task (length fs) fs)
unfolding forward_frames forward_task frame_to_message
forward_frames-forward_task [] = refl
forward_frames-forward_task (close code reason ∷ fs) = refl
forward_frames-forward_task (text t ∷ fs) =
    rw (double (length fs)) (ap (λ os. bytes t ∷ newline ∷ os) (forward_frames-forward_task fs))
