-- ===== src/Relay/Sending/Keeps.antt =====
-- Induction over what a client frame can do to the state (apps/api/src/relay.rs): send frames, and
-- replace the stream and the tasks.
use epistl.Prelude.{ℕ, String, subst, inl, inr, Option, none, some, List, Bool-cases}
use epistl.Wire.{Wire}
use epistl.Registry.{is_gone}
use epistl.Relay.JetStream.{JetStream}
use epistl.Relay.Frames.{Task, str_field, emit, send_error, emit_gone, emit_open}
use epistl.Relay.Sending.{
  Moment, St, published, deliver, or_false, send_to_contact, send_fields, handle_send, is_send,
  handle_parsed, handle_client_frame,
}

module _ (w : Wire) (j : JetStream w.Text) (m : Moment) (sender tx : ℕ) (P : St w j → Type 0)
    (emits : (c : ℕ) (v : w.Value) (st : St w j) → P st → P (emit w c v st).1)
    (queues : (s : j.Stream) (ts : List (Task w.Value)) (st : St w j)
      → P st
      → P (record st { stream = s; tasks = ts })) where
  error_keeps : (c e : String) (st : St w j) → P st → P (send_error w tx c e st).1
  unfolding send_error
  error_keeps c e st h = emits tx _ st h

  published_keeps :
      (to : ℕ) (body : String) (o : Option ℕ) (st : St w j)
      → P st
      → P (published w j m sender to body tx o st).1
  unfolding published
  published_keeps to body none st h = error_keeps _ _ st h
  published_keeps to body (some n) st h = emits tx _ _ (queues st.stream _ st h)

  deliver_keeps :
      (to : ℕ) (body : String) (o : Option ℕ) (st : St w j)
      → P st
      → P (deliver w j m sender to body tx o st).1
  unfolding deliver
  deliver_keeps to body none st h = published_keeps to body _ _ (queues _ st.tasks st h)
  deliver_keeps to body (some c) st h = elim (Bool-cases (is_gone st.hub c)) [
    | inl g ↦ rw (emit_gone w c _ st g) (published_keeps to body _ _ (queues _ st.tasks st h))
    | inr g ↦
        rw (emit_open w c _ st g)
          (emits tx _ _ (subst (λ r. P r.1) (emit_open w c _ st g) (emits c _ st h)))
  ]

  contact_keeps :
      (to : ℕ) (body : String) (st : St w j)
      → P st
      → P (send_to_contact w j m sender to body tx st).1
  unfolding send_to_contact
  contact_keeps to body st h = elim (Bool-cases (or_false (m.is_contact sender to))) [
    | inl e ↦ rw e (deliver_keeps to body _ st h)
    | inr e ↦ rw e (error_keeps _ _ st h)
  ]

  fields_keeps :
      (to : Option ℕ) (body : Option String) (st : St w j)
      → P st
      → P (send_fields w j m sender tx to body st).1
  unfolding send_fields
  fields_keeps none body st h = error_keeps _ _ st h
  fields_keeps (some to) none st h = error_keeps _ _ st h
  fields_keeps (some to) (some body) st h = contact_keeps to body st h

  parsed_keeps :
      (parsed : Option w.Value) (st : St w j) → P st → P (handle_parsed w j m sender tx parsed st).1
  unfolding handle_parsed handle_send
  parsed_keeps none st h = error_keeps _ _ st h
  parsed_keeps (some v) st h = elim (Bool-cases (is_send w j (str_field w v "type"))) [
    | inl k ↦ rw k (fields_keeps _ _ st h)
    | inr k ↦ rw k (error_keeps _ _ st h)
  ]

  -- What every send and every change of the queue keeps, a client frame keeps.
  pub handle_client_frame_keeps :
      (input : w.Text) (st : St w j) → P st → P (handle_client_frame w j m sender tx input st).1
  unfolding handle_client_frame
  handle_client_frame_keeps input st h = parsed_keeps (w.from_text input) st h
