-- ===== src/Messages/Scan.antt =====
-- The walk over the stream is a scan of the user's messages (apps/api/src/messages.rs).
use Prim.Native.Nat.{◌^◌, ◌%◌}
use epistl.Prelude.{
  ℕ, zero, suc, ◌+◌, ◌≤◌, ◌≡◌, refl, sym, ap, subst, ◌⊎◌, ◌∙◌, inl, inr, String, ◌==◌, ◌&&◌, Bool,
  true, false, Option, none, some, List, [], ◌∷◌, leb, ltb, all, find, retain, take, str_eq, arith,
  Bool-cases, if◌then◌else◌,
}
use epistl.Wire.{Wire}
use epistl.Http.{Response, json, error}
use epistl.Relay.JetStream.{Queued, JetStream}
use epistl.Relay.Frames.{str_field, or_null}
use epistl.Messages.{not_found, envelope, names_sender, of_payload, inspect, walk, get_queued}

module _ {T : Type 0} where
  -- for the user, from this sequence number on
  abbrev pub is_next : ℕ → ℕ → Queued T → Bool
  is_next u n m = m.recipient == u && leb n m.sequence

  -- The stream numbers its messages upwards, within 64 bits.
  abbrev pub ascending : List (Queued T) → Bool
  ascending [] = true
  ascending (x ∷ xs) =
      (ltb (x.sequence + 1) (2 ^ 64) && all (λ (y : Queued T). ltb x.sequence y.sequence) xs)
      && ascending xs

  either :
      (b : Bool) (x m : Queued T) (o : Option (Queued T))
      → (if b then some x else o) ≡ some m
      → ((b ≡ true) × (x ≡ m)) ⊎ (o ≡ some m)
  either true x m o h = inl (refl, cc h)
  either false x m o h = inr h

  find-passes :
      (p : Queued T → Bool) (xs : List (Queued T)) (m : Queued T) → find p xs ≡ some m → p m ≡ true
  find-passes p [] m h = cc
  find-passes p (x ∷ xs) m h = elim (either (p x) x m (find p xs) h) [
    | inl (e, same) ↦ ap p (sym same) ∙ e
    | inr e ↦ find-passes p xs m e
  ]

  module _ (u n : ℕ) where
    later :
        (x : Queued T) (xs : List (Queued T))
        → n ≤ x.sequence
        → all (λ (y : Queued T). ltb x.sequence y.sequence) xs ≡ true
        → retain (is_next u n) xs ≡ retain (is_next u (x.sequence + 1)) xs
    later x [] le h = refl
    later x (y ∷ ys) le h = ground (arith, later x ys)

    passed_over :
        (x m : Queued T)
        → is_next u n x ≡ false
        → is_next u n m ≡ true
        → is_next u (m.sequence + 1) x ≡ false
    passed_over x m out next = ground arith

  abbrev after : ℕ → List (Queued T) → Option (Queued T) → List (Queued T)
  after u qs none = []
  after u qs (some m) = m ∷ retain (is_next u (m.sequence + 1)) qs

  -- The user's messages from a number on are the first one, and those from the number after it on.
  retain-after :
      (u n : ℕ) (qs : List (Queued T))
      → ascending qs ≡ true
      → retain (is_next u n) qs ≡ after u qs (find (is_next u n) qs)
  retain-after u n [] h = refl
  retain-after u n (x ∷ xs) h = elim (Bool-cases (is_next u n x)) [
    | inl e ↦ rw e (ap (λ t. x ∷ t) (later u n x xs (ground arith) (ground arith) ∙ dropped))
    | inr e ↦ rw e (retain-after u n xs (ground arith) ∙ same e (find (is_next u n) xs) refl)
  ]
    where
      dropped :
          retain (is_next u (x.sequence + 1)) xs ≡ retain (is_next u (x.sequence + 1)) (x ∷ xs)
      dropped = ground arith

      same :
          is_next u n x ≡ false
          → (o : Option (Queued T)) → find (is_next u n) xs ≡ o
          → after u xs o ≡ after u (x ∷ xs) o
      same e none f = refl
      same e (some m) f = rw (passed_over u n x m e (find-passes (is_next u n) xs m f)) refl

  bounded :
      (p : Queued T → Bool) (qs : List (Queued T)) (m : Queued T)
      → ascending qs ≡ true
      → find p qs ≡ some m
      → (m.sequence + 1) % 2 ^ 64 ≡ m.sequence + 1
  bounded p [] m h f = cc
  bounded p (x ∷ xs) m h f = elim (either (p x) x m (find p xs) f) [
    | inl (e, same) ↦
        subst (λ (y : Queued T). (y.sequence + 1) % 2 ^ 64 ≡ y.sequence + 1) same
          (in_range x.sequence (ground arith))
    | inr e ↦ bounded p xs m (ground arith) e
  ]
    where
      in_range : (k : ℕ) → ltb (k + 1) (2 ^ 64) ≡ true → (k + 1) % 2 ^ 64 ≡ k + 1
      in_range k h = ground arith

-- The turns of the walk over the messages of the user.
abbrev scan : (w : Wire) → String → ℕ → List (Queued w.Text) → Response w.Value
scan w from zero ms = not_found w
scan w from (suc n) [] = not_found w
scan w from (suc n) (m ∷ ms) = of_payload w from (w.from_text m.payload) (scan w from n ms)

module _ (w : Wire) (j : JetStream w.Text) (user : ℕ) (from : String) (s : j.Stream) where
  found :
      (i turns : ℕ) (o : Option (Queued w.Text))
      → find (is_next user i) (j.queued s) ≡ o
      → ascending (j.queued s) ≡ true
      → (rest : ℕ → Response w.Value)
      → ((n : ℕ) → rest n ≡ scan w from turns (retain (is_next user n) (j.queued s)))
      → inspect w from rest (some o) ≡ scan w from (suc turns) (after user (j.queued s) o)
  unfolding inspect
  found i turns none e h rest ih = refl
  found i turns (some m) e h rest ih =
      ap (of_payload w from (w.from_text m.payload))
        (ap rest (bounded (is_next user i) (j.queued s) m h e) ∙ ih (m.sequence + 1))

  walk-scan :
      ((n : ℕ) → (o : Option (Queued w.Text)) × (j.first_from user n s ≡ some o))
      → ascending (j.queued s) ≡ true
      → (turns i n : ℕ)
      → walk w j (λ _. s) user from i turns n
        ≡ scan w from turns (retain (is_next user n) (j.queued s))
  unfolding walk
  walk-scan answers h zero i n = refl
  walk-scan answers h (suc turns) i n =
      let (o, e) = answers n in
      let first = j.first_from-find user n s o e in
      rw (e, retain-after user n (j.queued s) h, first)
        (found n turns (find (is_next user n) (j.queued s)) refl h _
          (walk-scan answers h turns (suc i)))

  from_zero :
      (qs : List (Queued w.Text))
      → retain (is_next user 0) qs ≡ retain (λ m. m.recipient == user) qs
  from_zero [] = refl
  from_zero (m ∷ ms) = ground (arith, from_zero ms)

module _ (w : Wire) (from : String) where
  abbrev pub is_text : Option String → Bool
  is_text none = false
  is_text (some s) = str_eq s from

  abbrev pub is_from : Option w.Value → Bool
  is_from none = false
  is_from (some p) = is_text (elim (w.get p "from") [ none ↦ none | some x ↦ w.as_str x ])

  -- Whether the payload is JSON and names the sender under `from`.
  abbrev pub is_from_sender : Queued w.Text → Bool
  is_from_sender m = is_from (w.from_text m.payload)

  abbrev pub field : w.Value → String → w.Value
  field p name = elim (w.get p name) [ none ↦ w.null | some x ↦ x ]

  abbrev pub parsed_reply : Option w.Value → Response w.Value
  parsed_reply none = error w 404 "not_found"
  parsed_reply (some p) = json w 200 (
      w.obj (
        ("from", field p "from")
        ∷ ("body_b64", field p "body_b64")
        ∷ ("sent_at", field p "sent_at")
        ∷ []))

  -- The reply for the message that is found.
  abbrev pub reply_for : Option (Queued w.Text) → Response w.Value
  reply_for none = error w 404 "not_found"
  reply_for (some m) = parsed_reply (w.from_text m.payload)

  names_sender-is_text : (o : Option String) → names_sender w from o ≡ is_text o
  unfolding names_sender
  names_sender-is_text none = refl
  names_sender-is_text (some s) = refl

  or_null-field : (p : w.Value) (name : String) → or_null w (w.get p name) ≡ field p name
  unfolding or_null
  or_null-field p name = of_option (w.get p name)
    where
      of_option : (o : Option w.Value) → or_null w o ≡ elim o [ none ↦ w.null | some x ↦ x ]
      of_option none = refl
      of_option (some x) = refl

  of_payload-is_from :
      (o : Option w.Value) (rest : Response w.Value)
      → of_payload w from o rest ≡ (if is_from o then parsed_reply o else rest)
  unfolding of_payload envelope str_field
  of_payload-is_from none rest = refl
  of_payload-is_from (some p) rest =
      rw
        (
          names_sender-is_text (str_field w p "from"),
          or_null-field p "from",
          or_null-field p "body_b64",
          or_null-field p "sent_at",
        )
        refl

  scan-find :
      (n : ℕ) (ms : List (Queued w.Text))
      → scan w from n ms ≡ reply_for (find is_from_sender (take n ms))
  scan-find zero ms = refl
  scan-find (suc n) [] = refl
  scan-find (suc n) (m ∷ ms) =
      of_payload-is_from (w.from_text m.payload) (scan w from n ms)
      ∙ elim (Bool-cases (is_from_sender m)) [ inl e ↦ rw e refl | inr e ↦ rw e (scan-find n ms) ]

-- If the stream answers every look-up, does not change meanwhile, and numbers its messages upwards within 64
-- bits, then of the caller's first 256 messages the oldest whose payload is JSON that names the sender is
-- replied, with its sender, its body and its time; or 404 if there is none.
pub get_queued-find :
    (w : Wire) (j : JetStream w.Text) (user from_user_id : ℕ) (s : j.Stream)
    → ((n : ℕ) → (o : Option (Queued w.Text)) × (j.first_from user n s ≡ some o))
    → ascending (j.queued s) ≡ true
    → get_queued w j (some (λ _. s)) user from_user_id
      ≡ reply_for w (w.uuid_text from_user_id) (
          find
            (is_from_sender w (w.uuid_text from_user_id))
            (take 256 (retain (λ m. m.recipient == user) (j.queued s))))
unfolding get_queued
get_queued-find w j user from_user_id s answers h =
    walk-scan w j user (w.uuid_text from_user_id) s answers h 256 0 0
    ∙ ap (scan w (w.uuid_text from_user_id) 256)
        (from_zero w j user (w.uuid_text from_user_id) s (j.queued s))
    ∙ scan-find w (w.uuid_text from_user_id) 256 (retain (λ m. m.recipient == user) (j.queued s))
