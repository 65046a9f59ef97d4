-- ===== src/Relay/Background/Outcomes.antt =====
-- What the spawned tasks of apps/api/src/relay.rs leave behind.
use epistl.Prelude.{
  ℕ, String, ◌≡◌, refl, ap, ◌∙◌, inl, inr, ◌==◌, ◌&&◌, ◌+◌, false, some, List, [], ◌∷◌, map, count,
  count-append, str_eq, Bool-cases, Option-cases, arith,
}
use epistl.Wire.{Wire}
use epistl.Db.{PushToken}
use epistl.Registry.{is_gone, get as registry_get}
use epistl.Relay.JetStream.{JetStream}
use epistl.Relay.Frames.{sent_on, emit_gone, emit_open}
use epistl.Relay.Sending.{St}
use epistl.Relay.Sending.Ends.{IsUnreachable}
use epistl.Relay.Catchup.Delivery.{count-delete_message}
use epistl.Relay.Background.{
  forward, redeliver_if_now_connected, tokens_of, push_for, notify_push_tokens_for_offline_message,
}

module _ (w : Wire) (j : JetStream w.Text) where
  -- The task leaves everything as it is if no live connection takes a frame for the user.
  pub data Redelivered (to n : ℕ) (v : w.Value) (st st' : St w j) : Type 0 where
    skipped : IsUnreachable to st.hub → st' ≡ st → Redelivered to n v st st'
    forwarded :
        (c : ℕ)
        → registry_get to st.hub ≡ some c
        → is_gone st.hub c ≡ false
        → st' ≡ record (sent_on w c v st) { stream = j.delete_message n st.stream }
        → Redelivered to n v st st'

  forward-Redelivered :
      (to n : ℕ) (v : w.Value) (st : St w j) (c : ℕ)
      → registry_get to st.hub ≡ some c
      → Redelivered to n v st (forward w j c n v st)
  unfolding forward
  forward-Redelivered to n v st c e = elim (Bool-cases (is_gone st.hub c)) [
    | inl g ↦ skipped (inr (c, e, g)) (rw (emit_gone w c v st g) refl)
    | inr g ↦ forwarded c e g (rw (emit_open w c v st g) refl)
  ]

  -- The redelivery task for a queued message changes nothing if no live connection takes a frame
  -- for the recipient; otherwise it sends the frame on the registered connection and then asks the
  -- stream to delete this message.
  pub redeliver_if_now_connected-Redelivered :
      (to n : ℕ) (v : w.Value) (st : St w j)
      → Redelivered to n v st (redeliver_if_now_connected w j to n v st)
  unfolding redeliver_if_now_connected
  redeliver_if_now_connected-Redelivered to n v st = elim (Option-cases (registry_get to st.hub)) [
    | inl e ↦ rw e (skipped (inl e) refl)
    | inr (c, e) ↦ rw e (forward-Redelivered to n v st c e)
  ]

  -- The redelivery task for a queued message takes no message of another sequence number out of
  -- the stream, whatever its outcome.
  pub redeliver_keeps_others :
      (to n k : ℕ) (v : w.Value) (st : St w j)
      → (n == k) ≡ false
      → count (λ x. x.sequence == k) (j.queued (redeliver_if_now_connected w j to n v st).stream)
        ≡ count (λ x. x.sequence == k) (j.queued st.stream)
  redeliver_keeps_others to n k v st h = elim (redeliver_if_now_connected-Redelivered to n v st) [
    | skipped u e ↦ ap (λ s. count (λ x. x.sequence == k) (j.queued s.stream)) e
    | forwarded c e g p ↦
        ap (λ s. count (λ x. x.sequence == k) (j.queued s.stream)) p
        ∙ count-delete_message w j k n st.stream h
  ]

  count-push :
      (t : String) (to from : ℕ) (rows : List PushToken)
      → count (λ p. str_eq p.token t) (map (push_for w j from) (tokens_of w j to rows))
        ≡ count (λ r. (r.user_id == to) && str_eq r.token t) rows
  unfolding tokens_of push_for
  count-push t to from [] = refl
  count-push t to from (r ∷ rs) = ground (arith, count-push t to from rs)

  -- For a message queued for a user, each row of that user in the push tokens gets one push, and
  -- no other device gets one.
  pub notify-tokens :
      (t : String) (to from : ℕ) (rows : List PushToken) (st : St w j)
      → count
          (λ p. str_eq p.token t)
          (notify_push_tokens_for_offline_message w j (some rows) to from st).pushes
        ≡ count (λ p. str_eq p.token t) st.pushes
          + count (λ r. (r.user_id == to) && str_eq r.token t) rows
  unfolding notify_push_tokens_for_offline_message
  notify-tokens t to from rows st =
      count-append (λ p. str_eq p.token t) st.pushes _
      ∙ ap (λ n. count (λ p. str_eq p.token t) st.pushes + n) (count-push t to from rows)
