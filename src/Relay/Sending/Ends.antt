-- ===== src/Relay/Sending/Ends.antt =====
-- What becomes of a message to a contact (apps/api/src/relay.rs).
use epistl.Prelude.{
  ℕ, String, ◌≡◌, refl, ◌⊎◌, inl, inr, Bool, true, false, Option, none, some, [], ◌∷◌, ◌++◌,
  Bool-cases, Option-cases,
}
use epistl.Wire.{Wire}
use epistl.Registry.{Hub, is_gone, get as registry_get}
use epistl.Relay.JetStream.{JetStream}
use epistl.Relay.Frames.{
  redeliver, notify, message_frame, ack_frame, payload_of, emit, send_error, sent_on, emit_gone,
  emit_open,
}
use epistl.Relay.Sending.{
  Moment, St, queue_for_offline_delivery, deliver, or_false, send_to_contact,
}

-- No live connection takes a frame for the user: none is registered, or its receiver is gone.
abbrev pub IsUnreachable : {T : Type 0} → ℕ → Hub T → Type 0
IsUnreachable to h =
    (registry_get to h ≡ none) ⊎ ((c : ℕ) × (registry_get to h ≡ some c) × (is_gone h c ≡ true))

module _ (w : Wire) (j : JetStream w.Text) (m : Moment) (sender tx : ℕ) where
  -- the publish that is made if nobody takes the frame
  abbrev pub after : ℕ → String → St w j → Option ℕ × j.Stream
  after to body st =
      j.publish to (w.to_text (payload_of w sender body (w.rfc3339 m.queued_at))) st.stream

  -- What becomes of a message to a contact; the value is the flag and the state at the end.
  pub data Sent (to : ℕ) (body : String) (st : St w j) (r : Bool × St w j) : Type 0 where
    live :
        (c : ℕ)
        → registry_get to st.hub ≡ some c
        → is_gone st.hub c ≡ false
        → r
          ≡ emit w tx (ack_frame w to) (
              sent_on w c
                (message_frame w
                  (w.str (w.uuid_text sender))
                  (w.str body)
                  (w.str (w.rfc3339 m.live_at)))
                st)
        → Sent to body st r
    queued :
        (n : ℕ)
        → IsUnreachable to st.hub
        → (after to body st).0 ≡ some n
        → r
          ≡ emit w tx (ack_frame w to) (record st {
            stream = (after to body st).1;
            tasks =
                st.tasks
                ++ redeliver to n (
                    message_frame w
                      (w.str (w.uuid_text sender))
                      (w.str body)
                      (w.str (w.rfc3339 m.queued_at)))
                  ∷ notify to sender
                  ∷ [];
          })
        → Sent to body st r
    unavailable :
        IsUnreachable to st.hub
        → (after to body st).0 ≡ none
        → r
          ≡ send_error w tx "queue_unavailable" "message could not be queued for offline delivery"
              (record st { stream = (after to body st).1 })
        → Sent to body st r

  queue-Sent :
      (to : ℕ) (body : String) (st : St w j)
      → IsUnreachable to st.hub
      → Sent to body st (queue_for_offline_delivery w j m sender to body tx st)
  unfolding queue_for_offline_delivery
  queue-Sent to body st u = elim (Option-cases (after to body st).0) [
    | inl e ↦ unavailable u e (rw e refl)
    | inr (n, e) ↦ queued n u e (rw e refl)
  ]

  deliver-Sent :
      (to : ℕ) (body : String) (st : St w j) (o : Option ℕ)
      → registry_get to st.hub ≡ o
      → Sent to body st (deliver w j m sender to body tx o st)
  unfolding deliver
  deliver-Sent to body st none e = queue-Sent to body st (inl e)
  deliver-Sent to body st (some c) e = elim (Bool-cases (is_gone st.hub c)) [
    | inl gone ↦ rw (emit_gone w c _ st gone) (queue-Sent to body st (inr (c, e, gone)))
    | inr open? ↦ live c e open? (rw (emit_open w c _ st open?) refl)
  ]

  -- A message to a contact is sent on the connection that is registered for the recipient, if it
  -- takes frames, and else published to the offline queue; either way the sender gets an
  -- acknowledgement, and on the queue the two background tasks are started. If the publish reports
  -- an error, the sender gets an error frame instead and no task is started.
  pub send_to_contact-Sent :
      (to : ℕ) (body : String) (st : St w j)
      → or_false (m.is_contact sender to) ≡ true
      → Sent to body st (send_to_contact w j m sender to body tx st)
  unfolding send_to_contact
  send_to_contact-Sent to body st h = rw h (deliver-Sent to body st (registry_get to st.hub) refl)
