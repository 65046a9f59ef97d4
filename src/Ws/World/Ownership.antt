-- ===== src/Ws/World/Ownership.antt =====
-- A registered connection is the user's own (apps/api/src/ws.rs, registry.rs, relay.rs).
use epistl.Prelude.{
  ℕ, ◌≡◌, ◌≢◌, refl, sym, ap, ◌∙◌, subst, inl, inr, ◌==◌, ◌&&◌, Bool, true, false, Option, none,
  some, get_or, List, ◌∷◌, ◌++◌, Bool-cases, arith, if◌then◌else◌,
}
use epistl.Wire.{Wire}
use epistl.Db.{PushToken}
use epistl.Registry.{Frame, Entries, Hub, lookup, send, is_gone, insert, get as registry_get}
use epistl.Registry.Lookups.{get-insert, get-remove_if_current, is_at}
use epistl.Relay.JetStream.{JetStream}
use epistl.Relay.Frames.{Task, redeliver, notify, emit, emit_gone, emit_open}
use epistl.Relay.Sending.{Moment, St, or_false}
use epistl.Relay.Sending.Keeps.{handle_client_frame_keeps}
use epistl.Relay.Sending.Privacy.{sent_to, handle_client_frame_private}
use epistl.Relay.Catchup.Keeps.{deliver_queued_messages_keeps}
use epistl.Relay.Background.{run_task, notify_push_tokens_for_offline_message}
use epistl.Relay.Background.Outcomes.{skipped, forwarded, redeliver_if_now_connected-Redelivered}
use epistl.Ws.{
  Message, text_message, close_message, other_message, connect, close_previous, receive, disconnect,
}
use epistl.Ws.World.{
  World, Step, connects, receives, disconnects, drops, runs, Reachable, started, stepped,
}

module _ (w : Wire) (j : JetStream w.Text) where
  -- A user's entry is a channel that the user's own connection made.
  abbrev pub IsOwned : Entries → Hub w.Text → Type 0
  IsOwned owners h = (u c : ℕ) → registry_get u h ≡ some c → lookup c owners ≡ some u

  send-entries : (c : ℕ) (f : Frame w.Text) (h : Hub w.Text) → (send c f h).1.entries ≡ h.entries
  unfolding send
  send-entries c f h = elim (Bool-cases (is_gone h c)) [ inl g ↦ rw g refl | inr g ↦ rw g refl ]

  module _ (owners : Entries) where
    Own : St w j → Type 0
    Own st = IsOwned owners st.hub

    emit_owned : (c : ℕ) (v : w.Value) (st : St w j) → Own st → Own (emit w c v st).1
    unfolding Own registry_get
    emit_owned c v st h = elim (Bool-cases (is_gone st.hub c)) [
      | inl g ↦ rw (emit_gone w c v st g) h
      | inr g ↦ rw (emit_open w c v st g) h
    ]

    receive_owned :
        (m : Moment) (user tx : ℕ) (message : Message w.Text) (st : St w j)
        → Own st
        → Own (receive w j m user tx message st).1
    unfolding receive Own
    receive_owned m user tx (text_message t) st h =
        handle_client_frame_keeps w j m user tx Own emit_owned (λ s ts st h. h) t st h
    receive_owned m user tx (close_message c r) st h = h
    receive_owned m user tx other_message st h = h

    disconnect_owned : (user tx : ℕ) (st : St w j) → Own st → Own (disconnect w j user tx st)
    unfolding disconnect Own registry_get
    disconnect_owned user tx st h u c e = h u c (
        kept (is_at tx (registry_get user st.hub) && (user == u)) (registry_get u st.hub)
          (sym (get-remove_if_current u user tx st.hub) ∙ e))
      where
        kept : {c : ℕ} (b : Bool) (o : Option ℕ) → (if b then none else o) ≡ some c → o ≡ some c
        kept true o e = cc
        kept false o e = e

    run_owned :
        (rows : Option (List PushToken)) (t : Task w.Value) (st : St w j)
        → Own st
        → Own (run_task w j rows t st)
    unfolding run_task Own registry_get notify_push_tokens_for_offline_message
    run_owned rows (redeliver to n v) st h =
        elim (redeliver_if_now_connected-Redelivered w j to n v st) [
          | skipped u e ↦ subst Own (sym e) h
          | forwarded c e g p ↦ subst Own (sym p) h
        ]
    run_owned none (notify to from) st h = h
    run_owned (some rows) (notify to from) st h = h

  close-entries : (o : Option ℕ) (h : Hub w.Text) → (close_previous w j o h).entries ≡ h.entries
  unfolding close_previous
  close-entries none h = refl
  close-entries (some c) h = send-entries c _ h

  insert-IsOwned :
      (owners : Entries) (user tx : ℕ) (h : Hub w.Text)
      → lookup tx owners ≡ none
      → IsOwned owners h
      → IsOwned ((tx, user) ∷ owners) (insert user tx h).1
  insert-IsOwned owners user tx h new own u c e =
      first (registry_get u h) (lookup c owners) (own u c)
        (λ same. ap (λ k. lookup k owners) (sym same) ∙ new) (sym ((get-insert u user tx h).0) ∙ e)
    where
      first :
          (o p : Option ℕ)
          → (o ≡ some c → p ≡ some u)
          → (tx ≡ c → p ≡ none)
          → (if user == u then some tx else o) ≡ some c
          → (if tx == c then some user else p) ≡ some u
      first o p own new e = ground arith

  connect-IsOwned :
      (owners : Entries) (user tx : ℕ) (st : St w j)
      → lookup tx owners ≡ none
      → IsOwned owners st.hub
      → IsOwned ((tx, user) ∷ owners) (connect w j user tx st).hub
  unfolding connect Own registry_get
  connect-IsOwned owners user tx st new own =
      deliver_queued_messages_keeps w j tx (Own ((tx, user) ∷ owners))
        (emit_owned ((tx, user) ∷ owners) tx) (λ s st h. h) user _
        (λ u c e. insert-IsOwned owners user tx st.hub new own u c (
          ap (lookup u) (sym (close-entries (insert user tx st.hub).0 (insert user tx st.hub).1))
          ∙ e))

  Step-IsOwned :
      {x y : World w j} → Step w j x y → IsOwned x.owners x.st.hub → IsOwned y.owners y.st.hub
  unfolding Own registry_get
  Step-IsOwned {x} (connects user tx new) own = connect-IsOwned x.owners user tx x.st new own
  Step-IsOwned {x} (receives m user tx message o) own =
      receive_owned x.owners m user tx message x.st own
  Step-IsOwned {x} (disconnects user tx o) own = disconnect_owned x.owners user tx x.st own
  Step-IsOwned (drops tx) own = own
  Step-IsOwned {x} (runs rows ts us t e) own =
      run_owned x.owners rows t (record x.st { tasks = ts ++ us }) own

  -- In every state that connections, messages, disconnections and tasks can lead to, the channel
  -- registered for a user was made by a connection of that user.
  pub Reachable-IsOwned : {x : World w j} → Reachable w j x → IsOwned x.owners x.st.hub
  unfolding registry_get
  Reachable-IsOwned (started s) u c e = cc
  Reachable-IsOwned (stepped x y r s) u c e = Step-IsOwned s (Reachable-IsOwned r) u c e

  received_private :
      (m : Moment) (user tx d : ℕ) (message : Message w.Text) (st : St w j)
      → d ≢ tx
      → ((u : ℕ) → registry_get u st.hub ≡ some d → or_false (m.is_contact user u) ≡ false)
      → sent_to d (receive w j m user tx message st).1.hub ≡ sent_to d st.hub
  unfolding receive
  received_private m user tx d (text_message t) st ne h =
      handle_client_frame_private w j m user tx d ne t st h
  received_private m user tx d (close_message c r) st ne h = refl
  received_private m user tx d other_message st ne h = refl

  -- In every state that connections, messages, disconnections and tasks can lead to, whatever a
  -- client sends over its connection, the other connections of a user who is not a contact of the
  -- client's user get no frame.
  pub Reachable-receive_private :
      {x : World w j}
      → Reachable w j x
      → (m : Moment) (user tx d v : ℕ) (message : Message w.Text) → d ≢ tx
      → lookup d x.owners ≡ some v
      → or_false (m.is_contact user v) ≡ false
      → sent_to d (receive w j m user tx message x.st).1.hub ≡ sent_to d x.st.hub
  Reachable-receive_private {x} r m user tx d v message ne owner stranger =
      received_private m user tx d message x.st ne (λ u e.
        ap (λ o. or_false (m.is_contact user (get_or o v)))
          (sym (Reachable-IsOwned r u d e) ∙ owner)
        ∙ stranger)
