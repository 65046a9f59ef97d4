-- ===== src/Relay/Sending/Privacy.antt =====
-- Nobody but the sender and a contact of the sender is written to (apps/api/src/relay.rs).
use epistl.Prelude.{
  ℕ, String, ◌≡◌, ◌≢◌, refl, sym, ap, ◌∙◌, inl, inr, ◌==◌, Bool, false, Option, none, some, List,
  [], ◌∷◌, ◌++◌, retain, Bool-cases, arith,
}
use epistl.Wire.{Wire}
use epistl.Registry.{Frame, text, Hub, is_gone, get as registry_get}
use epistl.Relay.JetStream.{JetStream}
use epistl.Relay.Frames.{str_field, emit, send_error, emit_gone, emit_open}
use epistl.Relay.Sending.{
  Moment, St, published, deliver, or_false, send_to_contact, send_fields, handle_send, is_send,
  handle_parsed, handle_client_frame,
}

-- The frames that have gone out on a channel, in their order.
abbrev pub sent_to : {T : Type 0} → ℕ → Hub T → List (ℕ × Frame T)
sent_to d h = retain (λ f. f.0 == d) h.sent

retain_last :
    {A : Type 0} (p : A → Bool) (xs : List A) (x : A)
    → p x ≡ false
    → retain p (xs ++ x ∷ []) ≡ retain p xs
retain_last p [] x h = ground arith
retain_last p (y ∷ xs) x h = ground (arith, retain_last p xs x h)

==_ne : (a b : ℕ) → b ≢ a → (a == b) ≡ false
==_ne a b h = ground arith

module _ (w : Wire) (j : JetStream w.Text) where
  emit_other :
      (tx d : ℕ) (v : w.Value) (st : St w j)
      → d ≢ tx
      → sent_to d (emit w tx v st).1.hub ≡ sent_to d st.hub
  emit_other tx d v st ne = elim (Bool-cases (is_gone st.hub tx)) [
    | inl g ↦ rw (emit_gone w tx v st g) refl
    | inr g ↦
        rw (emit_open w tx v st g)
          (retain_last (λ f. f.0 == d) st.hub.sent (tx, text (w.to_text v)) (==_ne tx d ne))
  ]

module _ (w : Wire) (j : JetStream w.Text) (m : Moment) (sender tx d : ℕ) (ne : d ≢ tx) where
  error_other :
      (c e : String) (st : St w j) → sent_to d (send_error w tx c e st).1.hub ≡ sent_to d st.hub
  unfolding send_error
  error_other c e st = emit_other w j tx d _ st ne

  published_other :
      (to : ℕ) (body : String) (o : Option ℕ) (st : St w j)
      → sent_to d (published w j m sender to body tx o st).1.hub ≡ sent_to d st.hub
  unfolding published
  published_other to body none st = error_other _ _ st
  published_other to body (some n) st = emit_other w j tx d _ _ ne

  deliver_other :
      (to : ℕ) (body : String) (o : Option ℕ) (st : St w j)
      → o ≢ some d
      → sent_to d (deliver w j m sender to body tx o st).1.hub ≡ sent_to d st.hub
  unfolding deliver
  deliver_other to body none st away = published_other to body _ _
  deliver_other to body (some c) st away = elim (Bool-cases (is_gone st.hub c)) [
    | inl g ↦ rw (emit_gone w c _ st g) (published_other to body _ _)
    | inr g ↦ rw (emit_open w c _ st g) (
        emit_other w j tx d _ _ ne
        ∙ retain_last (λ f. f.0 == d) st.hub.sent (c, text _)
            (==_ne c d (λ e. away (ap some (sym e)))))
  ]

  contact_other :
      (to : ℕ) (body : String) (st : St w j)
      → (registry_get to st.hub ≡ some d → or_false (m.is_contact sender to) ≡ false)
      → sent_to d (send_to_contact w j m sender to body tx st).1.hub ≡ sent_to d st.hub
  unfolding send_to_contact
  contact_other to body st stranger = elim (Bool-cases (or_false (m.is_contact sender to))) [
    | inl h ↦ rw h (deliver_other to body _ st (λ e. cc (stranger e)))
    | inr h ↦ rw h (error_other _ _ st)
  ]

  fields_other :
      (to : Option ℕ) (body : Option String) (st : St w j)
      → ((u : ℕ) → registry_get u st.hub ≡ some d → or_false (m.is_contact sender u) ≡ false)
      → sent_to d (send_fields w j m sender tx to body st).1.hub ≡ sent_to d st.hub
  unfolding send_fields
  fields_other none body st h = error_other _ _ st
  fields_other (some to) none st h = error_other _ _ st
  fields_other (some to) (some body) st h = contact_other to body st (h to)

  parsed_other :
      (parsed : Option w.Value) (st : St w j)
      → ((u : ℕ) → registry_get u st.hub ≡ some d → or_false (m.is_contact sender u) ≡ false)
      → sent_to d (handle_parsed w j m sender tx parsed st).1.hub ≡ sent_to d st.hub
  unfolding handle_parsed handle_send
  parsed_other none st h = error_other _ _ st
  parsed_other (some v) st h = elim (Bool-cases (is_send w j (str_field w v "type"))) [
    | inl k ↦ rw k (fields_other _ _ st h)
    | inr k ↦ rw k (error_other _ _ st)
  ]

  -- Whatever a client sends, a channel that is not its own gets no frame, unless it is registered
  -- for a contact of the client's user.
  pub handle_client_frame_private :
      (input : w.Text) (st : St w j)
      → ((u : ℕ) → registry_get u st.hub ≡ some d → or_false (m.is_contact sender u) ≡ false)
      → sent_to d (handle_client_frame w j m sender tx input st).1.hub ≡ sent_to d st.hub
  unfolding handle_client_frame
  handle_client_frame_private input st h = parsed_other (w.from_text input) st h

module _ (w : Wire) (j : JetStream w.Text) where
  -- the queue and the tasks are those of before
  abbrev pub SameQueue : St w j → St w j → Type 0
  SameQueue st st' = (st'.stream ≡ st.stream) × (st'.tasks ≡ st.tasks)

module _ (w : Wire) (j : JetStream w.Text) (m : Moment) (sender tx : ℕ)
    (alone : (u : ℕ) → or_false (m.is_contact sender u) ≡ false) where
  error-SameQueue : (c e : String) (st : St w j) → SameQueue w j st (send_error w tx c e st).1
  unfolding send_error emit
  error-SameQueue c e st = (refl, refl)

  fields-SameQueue :
      (to : Option ℕ) (body : Option String) (st : St w j)
      → SameQueue w j st (send_fields w j m sender tx to body st).1
  unfolding send_fields send_to_contact
  fields-SameQueue none body st = error-SameQueue _ _ st
  fields-SameQueue (some to) none st = error-SameQueue _ _ st
  fields-SameQueue (some to) (some body) st = rw (alone to) (error-SameQueue _ _ st)

  parsed-SameQueue :
      (parsed : Option w.Value) (st : St w j)
      → SameQueue w j st (handle_parsed w j m sender tx parsed st).1
  unfolding handle_parsed handle_send
  parsed-SameQueue none st = error-SameQueue _ _ st
  parsed-SameQueue (some v) st = elim (Bool-cases (is_send w j (str_field w v "type"))) [
    | inl k ↦ rw k (fields-SameQueue _ _ st)
    | inr k ↦ rw k (error-SameQueue _ _ st)
  ]

  -- If no user is a contact of the client's user, no client frame changes the offline queue or
  -- starts a task.
  pub handle_client_frame-SameQueue :
      (input : w.Text) (st : St w j)
      → SameQueue w j st (handle_client_frame w j m sender tx input st).1
  unfolding handle_client_frame
  handle_client_frame-SameQueue input st = parsed-SameQueue (w.from_text input) st
