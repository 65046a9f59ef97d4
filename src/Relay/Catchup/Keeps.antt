-- ===== src/Relay/Catchup/Keeps.antt =====
-- Induction over what the catch-up can do to the state (apps/api/src/relay.rs).
use epistl.Prelude.{ℕ, inl, inr, Option, none, some, List, [], ◌∷◌, Bool-cases, Option-cases}
use epistl.Wire.{Wire}
use epistl.Relay.JetStream.{Queued, JetStream}
use epistl.Relay.Frames.{emit}
use epistl.Relay.Sending.{St}
use epistl.Relay.Catchup.{
  relay_of, deliver_one, deliver_each, deliver_queued_messages, max_queued_messages_per_fetch,
}

module _ (w : Wire) (j : JetStream w.Text) (tx : ℕ) (P : St w j → Type 0)
    (emits : (v : w.Value) (st : St w j) → P st → P (emit w tx v st).1)
    (acks : (s : j.Stream) (st : St w j) → P st → P (record st { stream = s })) where
  one_keeps :
      (m : Queued w.Text) (p : Option w.Value) (st : St w j)
      → P st
      → P (deliver_one w j tx m p st).1
  unfolding deliver_one
  one_keeps m none st h = h
  one_keeps m (some p) st h = elim (Bool-cases (emit w tx (relay_of w p) st).0) [
    | inl e ↦ rw e (acks _ _ (emits _ st h))
    | inr e ↦ rw e (emits _ st h)
  ]

  each_keeps : (ms : List (Queued w.Text)) (st : St w j) → P st → P (deliver_each w j tx ms st)
  unfolding deliver_each
  each_keeps [] st h = h
  each_keeps (m ∷ ms) st h =
      let h' = one_keeps m (w.from_text m.payload) st h in
      elim (Bool-cases (deliver_one w j tx m (w.from_text m.payload) st).0) [
        | inl e ↦ rw e (each_keeps ms _ h')
        | inr e ↦ rw e h'
      ]

  -- What every send on the channel and every change of the stream keeps, the catch-up keeps.
  pub deliver_queued_messages_keeps :
      (user : ℕ) (st : St w j) → P st → P (deliver_queued_messages w j user tx st)
  unfolding deliver_queued_messages
  deliver_queued_messages_keeps user st h =
      elim (Option-cases (j.fetch max_queued_messages_per_fetch user st.stream)) [
        | inl e ↦ rw e h
        | inr (ms, e) ↦ rw e (each_keeps ms st h)
      ]
