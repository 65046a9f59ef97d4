-- ===== src/Relay/Sending/Replies.antt =====
-- A client frame ends the connection only if the connection is gone (apps/api/src/relay.rs).
use epistl.Prelude.{ℕ, String, ◌≡◌, refl, inl, inr, not, Option, none, some, Bool-cases}
use epistl.Wire.{Wire}
use epistl.Registry.{is_gone}
use epistl.Relay.JetStream.{JetStream}
use epistl.Relay.Frames.{str_field, emit, send_error, emit_gone, emit_open}
use epistl.Relay.Sending.{
  Moment, St, published, deliver, or_false, send_to_contact, send_fields, handle_send, is_send,
  handle_parsed, handle_client_frame,
}

module _ (w : Wire) (j : JetStream w.Text) (m : Moment) (sender tx : ℕ) where
  emit-flag : (v : w.Value) (st : St w j) → (emit w tx v st).0 ≡ not (is_gone st.hub tx)
  emit-flag v st = elim (Bool-cases (is_gone st.hub tx)) [
    | inl g ↦ rw (emit_gone w tx v st g, g) refl
    | inr g ↦ rw (emit_open w tx v st g, g) refl
  ]

  error-flag : (c e : String) (st : St w j) → (send_error w tx c e st).0 ≡ not (is_gone st.hub tx)
  unfolding send_error
  error-flag c e st = emit-flag _ st

  published-flag :
      (to : ℕ) (body : String) (o : Option ℕ) (st : St w j)
      → (published w j m sender to body tx o st).0 ≡ not (is_gone st.hub tx)
  unfolding published is_gone
  published-flag to body none st = error-flag _ _ st
  published-flag to body (some n) st = emit-flag _ _

  deliver-flag :
      (to : ℕ) (body : String) (o : Option ℕ) (st : St w j)
      → (deliver w j m sender to body tx o st).0 ≡ not (is_gone st.hub tx)
  unfolding deliver is_gone
  deliver-flag to body none st = published-flag to body _ _
  deliver-flag to body (some c) st = elim (Bool-cases (is_gone st.hub c)) [
    | inl g ↦ rw (emit_gone w c _ st g) (published-flag to body _ _)
    | inr g ↦ rw (emit_open w c _ st g) (emit-flag _ _)
  ]

  contact-flag :
      (to : ℕ) (body : String) (st : St w j)
      → (send_to_contact w j m sender to body tx st).0 ≡ not (is_gone st.hub tx)
  unfolding send_to_contact
  contact-flag to body st = elim (Bool-cases (or_false (m.is_contact sender to))) [
    | inl h ↦ rw h (deliver-flag to body _ st)
    | inr h ↦ rw h (error-flag _ _ st)
  ]

  fields-flag :
      (to : Option ℕ) (body : Option String) (st : St w j)
      → (send_fields w j m sender tx to body st).0 ≡ not (is_gone st.hub tx)
  unfolding send_fields
  fields-flag none body st = error-flag _ _ st
  fields-flag (some to) none st = error-flag _ _ st
  fields-flag (some to) (some body) st = contact-flag to body st

  parsed-flag :
      (parsed : Option w.Value) (st : St w j)
      → (handle_parsed w j m sender tx parsed st).0 ≡ not (is_gone st.hub tx)
  unfolding handle_parsed handle_send
  parsed-flag none st = error-flag _ _ st
  parsed-flag (some v) st = elim (Bool-cases (is_send w j (str_field w v "type"))) [
    | inl h ↦ rw h (fields-flag _ _ st)
    | inr h ↦ rw h (error-flag _ _ st)
  ]

  -- Whatever a client frame is, handling it reports that the connection is done exactly if the
  -- channel of the connection itself is gone.
  pub handle_client_frame-flag :
      (input : w.Text) (st : St w j)
      → (handle_client_frame w j m sender tx input st).0 ≡ not (is_gone st.hub tx)
  unfolding handle_client_frame
  handle_client_frame-flag input st = parsed-flag (w.from_text input) st
