-- ===== src/Relay/Catchup/Delivery.antt =====
-- A new connection gets what was queued for its user, in order (apps/api/src/relay.rs).
use epistl.Prelude.{
  ℕ, String, ◌≡◌, refl, sym, ◌∙◌, ap, inl, inr, ◌==◌, Bool, true, false, not, Option, none, some,
  List, [], ◌∷◌, ◌++◌, map, all, count, retain, filter_map, cons?, Bool-cases, arith, ◌&&◌,
}
use epistl.Wire.{Wire}
use epistl.Registry.{Frame, text, is_gone}
use epistl.Relay.JetStream.{Queued, JetStream}
use epistl.Relay.Frames.{message_frame, payload_of, or_null, emit_gone, emit_open}
use epistl.Relay.Sending.{St}
use epistl.Relay.Catchup.{
  relay_of, deliver_one, deliver_each, deliver_queued_messages, max_queued_messages_per_fetch,
}

append_assoc : {A : Type 0} (xs ys : List A) (z : A) → (xs ++ z ∷ []) ++ ys ≡ xs ++ z ∷ ys
append_assoc [] ys z = refl
append_assoc (x ∷ xs) ys z = ap (λ t. x ∷ t) (append_assoc xs ys z)

append_nil : {A : Type 0} (xs : List A) → xs ++ [] ≡ xs
append_nil [] = refl
append_nil (x ∷ xs) = ap (λ t. x ∷ t) (append_nil xs)

module _ (w : Wire) where
  -- The frame that a queued message becomes is the frame that a live message would have been.
  pub relay_of-payload_of :
      (sender : ℕ) (body at : String)
      → relay_of w (payload_of w sender body at)
        ≡ message_frame w (w.str (w.uuid_text sender)) (w.str body) (w.str at)
  unfolding relay_of payload_of message_frame or_null
  relay_of-payload_of sender body at =
      rw
        (
          w.get-obj
              (("from", w.str (w.uuid_text sender))
                ∷ ("body_b64", w.str body)
                ∷ ("sent_at", w.str at)
                ∷ [])
              "from" refl,
          w.get-obj
              (("from", w.str (w.uuid_text sender))
                ∷ ("body_b64", w.str body)
                ∷ ("sent_at", w.str at)
                ∷ [])
              "body_b64" refl,
          w.get-obj
              (("from", w.str (w.uuid_text sender))
                ∷ ("body_b64", w.str body)
                ∷ ("sent_at", w.str at)
                ∷ [])
              "sent_at" refl,
        )
        refl

all_cons : (b c : Bool) → (not b && c) ≡ true → (b ≡ false) × (c ≡ true)
all_cons b c h = ground arith

count-retain_other :
    {T : Type 0} (n k : ℕ) (xs : List (Queued T))
    → (k == n) ≡ false
    → count (λ x. x.sequence == n) (retain (λ m. not (m.sequence == k)) xs)
      ≡ count (λ x. x.sequence == n) xs
count-retain_other n k [] h = refl
count-retain_other n k (x ∷ xs) h = ground (arith, count-retain_other n k xs h)

-- an acknowledgement takes no other message away
pub count-ack :
    (w : Wire) (j : JetStream w.Text) (n k : ℕ) (s : j.Stream)
    → (k == n) ≡ false
    → count (λ x. x.sequence == n) (j.queued (j.ack k s))
      ≡ count (λ x. x.sequence == n) (j.queued s)
count-ack w j n k s h = elim (j.queued-ack k s) [
  | inl e ↦ rw e refl
  | inr e ↦ rw e (count-retain_other n k (j.queued s) h)
]

pub count-delete_message :
    (w : Wire) (j : JetStream w.Text) (n k : ℕ) (s : j.Stream)
    → (k == n) ≡ false
    → count (λ x. x.sequence == n) (j.queued (j.delete_message k s))
      ≡ count (λ x. x.sequence == n) (j.queued s)
count-delete_message w j n k s h = elim (j.queued-delete_message k s) [
  | inl e ↦ rw e refl
  | inr e ↦ rw e (count-retain_other n k (j.queued s) h)
]

module _ (w : Wire) (j : JetStream w.Text) (tx : ℕ) where
  abbrev frame_of : w.Value → ℕ × Frame w.Text
  frame_of p = (tx, text (w.to_text (relay_of w p)))

  -- the frames for what was fetched
  abbrev pub frames_of : List (Queued w.Text) → List (ℕ × Frame w.Text)
  frames_of ms = map frame_of (filter_map (λ m. w.from_text m.payload) ms)

  append_frames :
      (xs : List (ℕ × Frame w.Text)) (o : Option w.Value) (vs : List w.Value)
      → (xs ++ map frame_of (cons? o [])) ++ map frame_of vs ≡ xs ++ map frame_of (cons? o vs)
  append_frames xs none vs = ap (λ t. t ++ map frame_of vs) (append_nil xs)
  append_frames xs (some v) vs = append_assoc xs (map frame_of vs) (frame_of v)

  one_gone :
      (m : Queued w.Text) (p : Option w.Value) (st : St w j)
      → is_gone st.hub tx ≡ true
      → (deliver_one w j tx m p st).1 ≡ st
  unfolding deliver_one
  one_gone m none st h = refl
  one_gone m (some p) st h = rw (emit_gone w tx (relay_of w p) st h) refl

  each_gone :
      (ms : List (Queued w.Text)) (st : St w j)
      → is_gone st.hub tx ≡ true
      → deliver_each w j tx ms st ≡ st
  unfolding deliver_each
  each_gone [] st h = refl
  each_gone (m ∷ ms) st h = elim (Bool-cases (deliver_one w j tx m (w.from_text m.payload) st).0) [
    | inl e ↦ rw (e, one_gone m (w.from_text m.payload) st h) (each_gone ms st h)
    | inr e ↦ rw (e) (one_gone m (w.from_text m.payload) st h)
  ]

  one_open :
      (m : Queued w.Text) (p : Option w.Value) (st : St w j)
      → is_gone st.hub tx ≡ false
      → ((deliver_one w j tx m p st).0 ≡ true)
        × (is_gone (deliver_one w j tx m p st).1.hub tx ≡ false)
        × ((deliver_one w j tx m p st).1.hub.sent ≡ st.hub.sent ++ map frame_of (cons? p []))
  unfolding deliver_one is_gone
  one_open m none st h = (refl, h, sym (append_nil st.hub.sent))
  one_open m (some p) st h = rw (emit_open w tx (relay_of w p) st h) (refl, h, refl)

  each_sent :
      (ms : List (Queued w.Text)) (st : St w j)
      → is_gone st.hub tx ≡ false
      → (deliver_each w j tx ms st).hub.sent ≡ st.hub.sent ++ frames_of ms
  unfolding deliver_each
  each_sent [] st h = sym (append_nil st.hub.sent)
  each_sent (m ∷ ms) st h =
      let (go_on, still_open, sent) = one_open m (w.from_text m.payload) st h in
      rw go_on (
        each_sent ms (deliver_one w j tx m (w.from_text m.payload) st).1 still_open
        ∙ rw sent (
            append_frames st.hub.sent (w.from_text m.payload)
              (filter_map (λ m. w.from_text m.payload) ms)))

  one_kept :
      (n : ℕ) (m : Queued w.Text) (p : Option w.Value) (st : St w j)
      → (m.sequence == n) ≡ false
      → count (λ x. x.sequence == n) (j.queued (deliver_one w j tx m p st).1.stream)
        ≡ count (λ x. x.sequence == n) (j.queued st.stream)
  unfolding deliver_one
  one_kept n m none st h = refl
  one_kept n m (some p) st h = elim (Bool-cases (is_gone st.hub tx)) [
    | inl g ↦ rw (emit_gone w tx (relay_of w p) st g) refl
    | inr g ↦ rw (emit_open w tx (relay_of w p) st g) (count-ack w j n m.sequence st.stream h)
  ]

  each_kept :
      (n : ℕ) (ms : List (Queued w.Text)) (st : St w j)
      → all (λ m. not (m.sequence == n)) ms ≡ true
      → count (λ x. x.sequence == n) (j.queued (deliver_each w j tx ms st).stream)
        ≡ count (λ x. x.sequence == n) (j.queued st.stream)
  unfolding deliver_each
  each_kept n [] st h = refl
  each_kept n (m ∷ ms) st h =
      let (first, rest) = all_cons (m.sequence == n) (all (λ m. not (m.sequence == n)) ms) h in
      let one = one_kept n m (w.from_text m.payload) st first in
      elim (Bool-cases (deliver_one w j tx m (w.from_text m.payload) st).0) [
        | inl e ↦ rw e (each_kept n ms _ rest ∙ one)
        | inr e ↦ rw e one
      ]

  -- If the channel of a new connection takes frames, the catch-up sends on it the frames of all
  -- fetched payloads that are JSON, in the order fetched, and nothing else.
  pub deliver_queued_messages-sent :
      (user : ℕ) (st : St w j) (ms : List (Queued w.Text))
      → j.fetch max_queued_messages_per_fetch user st.stream ≡ some ms
      → is_gone st.hub tx ≡ false
      → (deliver_queued_messages w j user tx st).hub.sent ≡ st.hub.sent ++ frames_of ms
  unfolding deliver_queued_messages
  deliver_queued_messages-sent user st ms f h = rw f (each_sent ms st h)

  -- If the channel of a new connection takes no frames, the catch-up leaves the whole state as it
  -- is; and whether it does or not, a message that was not fetched stays queued.
  pub deliver_queued_messages_loses_nothing :
      (user : ℕ) (st : St w j) (ms : List (Queued w.Text))
      → j.fetch max_queued_messages_per_fetch user st.stream ≡ some ms
      → (is_gone st.hub tx ≡ true → deliver_queued_messages w j user tx st ≡ st)
        × ((n : ℕ)
            → all (λ m. not (m.sequence == n)) ms ≡ true
            → count
                (λ x. x.sequence == n)
                (j.queued (deliver_queued_messages w j user tx st).stream)
              ≡ count (λ x. x.sequence == n) (j.queued st.stream))
  unfolding deliver_queued_messages
  deliver_queued_messages_loses_nothing user st ms f =
      rw f (λ h. each_gone ms st h, λ n h. each_kept n ms st h)
