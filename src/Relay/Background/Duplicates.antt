-- ===== src/Relay/Background/Duplicates.antt =====
-- The catch-up of a new connection and the redelivery task of the same message, one after the other
-- (apps/api/src/relay.rs).
use epistl.Prelude.{
  ℕ, String, ◌≡◌, refl, ap, ◌∙◌, false, Option, none, some, List, [], ◌∷◌, ◌++◌, map, filter_map,
  cons?, Bool-cases, inl, inr,
}
use epistl.Wire.{Wire}
use epistl.Registry.{Frame, text, is_gone, get as registry_get}
use epistl.Relay.JetStream.{Queued, JetStream}
use epistl.Relay.Frames.{message_frame, payload_of, emit_open, emit_gone}
use epistl.Relay.Sending.{St}
use epistl.Relay.Catchup.{
  relay_of, deliver_one, deliver_each, deliver_queued_messages, max_queued_messages_per_fetch,
}
use epistl.Relay.Catchup.Delivery.{relay_of-payload_of, frames_of, deliver_queued_messages-sent}
use epistl.Relay.Background.{forward, forward_to, redeliver_if_now_connected}

module _ (w : Wire) (j : JetStream w.Text) (user tx sender : ℕ) (body at : String) where
  -- the frame of the message
  abbrev pub frame : w.Value
  frame = message_frame w (w.str (w.uuid_text sender)) (w.str body) (w.str at)

  abbrev pub sent_frame : ℕ × Frame w.Text
  sent_frame = (tx, text (w.to_text frame))

  one_keeps :
      (m : Queued w.Text) (p : Option w.Value) (st : St w j)
      → (registry_get user (deliver_one w j tx m p st).1.hub ≡ registry_get user st.hub)
        × (is_gone (deliver_one w j tx m p st).1.hub tx ≡ is_gone st.hub tx)
  unfolding deliver_one registry_get is_gone
  one_keeps m none st = (refl, refl)
  one_keeps m (some p) st = elim (Bool-cases (is_gone st.hub tx)) [
    | inl g ↦ rw (emit_gone w tx (relay_of w p) st g) (refl, refl)
    | inr g ↦ rw (emit_open w tx (relay_of w p) st g) (refl, refl)
  ]

  -- The catch-up leaves the registry and the receivers as they are.
  each_keeps :
      (ms : List (Queued w.Text)) (st : St w j)
      → (registry_get user (deliver_each w j tx ms st).hub ≡ registry_get user st.hub)
        × (is_gone (deliver_each w j tx ms st).hub tx ≡ is_gone st.hub tx)
  unfolding deliver_each
  each_keeps [] st = (refl, refl)
  each_keeps (m ∷ ms) st =
      let one = one_keeps m (w.from_text m.payload) st in
      let rest = each_keeps ms (deliver_one w j tx m (w.from_text m.payload) st).1 in
      elim (Bool-cases (deliver_one w j tx m (w.from_text m.payload) st).0) [
        | inl e ↦ rw e (rest.0 ∙ one.0, rest.1 ∙ one.1)
        | inr e ↦ rw e one
      ]

  redelivered :
      (n : ℕ) (after : St w j)
      → registry_get user after.hub ≡ some tx
      → is_gone after.hub tx ≡ false
      → (redeliver_if_now_connected w j user n frame after).hub.sent
        ≡ after.hub.sent ++ sent_frame ∷ []
  unfolding redeliver_if_now_connected forward forward_to
  redelivered n after e open? = rw (e, emit_open w tx frame after open?) refl

  abbrev frame_of : w.Value → ℕ × Frame w.Text
  frame_of p = (tx, text (w.to_text (relay_of w p)))

  add_frame :
      (o : Option w.Value) (vs ws : List w.Value) (rest : List (ℕ × Frame w.Text))
      → map frame_of vs ≡ map frame_of ws ++ rest
      → map frame_of (cons? o vs) ≡ map frame_of (cons? o ws) ++ rest
  add_frame none vs ws rest h = h
  add_frame (some v) vs ws rest h = ap (λ t. frame_of v ∷ t) h

  frames_of-message :
      (before after : List (Queued w.Text)) (m : Queued w.Text)
      → m.payload ≡ w.to_text (payload_of w sender body at)
      → frames_of w j tx (before ++ m ∷ after)
        ≡ frames_of w j tx before ++ sent_frame ∷ frames_of w j tx after
  frames_of-message [] after m p =
      rw
        (p, w.from_text-to_text (payload_of w sender body at), relay_of-payload_of w sender body at)
        refl
  frames_of-message (b ∷ before) after m p =
      add_frame (w.from_text b.payload)
        (filter_map (λ m. w.from_text m.payload) (before ++ m ∷ after))
        (filter_map (λ m. w.from_text m.payload) before) (sent_frame ∷ frames_of w j tx after)
        (frames_of-message before after m p)

  queued_keeps :
      (st : St w j) (ms : List (Queued w.Text))
      → j.fetch max_queued_messages_per_fetch user st.stream ≡ some ms
      → (registry_get user (deliver_queued_messages w j user tx st).hub ≡ registry_get user st.hub)
        × (is_gone (deliver_queued_messages w j user tx st).hub tx ≡ is_gone st.hub tx)
  unfolding deliver_queued_messages
  queued_keeps st ms f = rw f (each_keeps ms st)

  -- If a user's connection is registered and takes frames, and its catch-up fetches a message, whatever
  -- else it fetches, before the redelivery task of the same message runs, then the connection is sent the
  -- frames of all that was fetched, this message's among them, and then this message's frame again.
  pub redeliver-caught_up :
      (st : St w j) (before after : List (Queued w.Text)) (m : Queued w.Text)
      → j.fetch max_queued_messages_per_fetch user st.stream ≡ some (before ++ m ∷ after)
      → m.payload ≡ w.to_text (payload_of w sender body at)
      → registry_get user st.hub ≡ some tx
      → is_gone st.hub tx ≡ false
      → (redeliver_if_now_connected w j user m.sequence frame
          (deliver_queued_messages w j user tx st)).hub.sent
        ≡ (st.hub.sent ++ (frames_of w j tx before ++ sent_frame ∷ frames_of w j tx after))
          ++ sent_frame ∷ []
  redeliver-caught_up st before after m f p e open? =
      let caught_up = deliver_queued_messages-sent w j tx user st (before ++ m ∷ after) f open? in
      let (same_registry, same_receivers) = queued_keeps st (before ++ m ∷ after) f in
      redelivered m.sequence (deliver_queued_messages w j user tx st) (same_registry ∙ e)
        (same_receivers ∙ open?)
      ∙ ap (λ t. t ++ sent_frame ∷ [])
          (caught_up ∙ ap (λ t. st.hub.sent ++ t) (frames_of-message before after m p))
