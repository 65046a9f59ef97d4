-- ===== src/Relay/JetStream.antt =====
-- The offline-delivery stream, which NATS JetStream keeps (apps/api/src/nats.rs configures it with
-- work-queue retention). The API only calls it; `queued` is what a client can observe of it.
use epistl.Prelude.{
  ℕ, ◌≡◌, ◌⊎◌, ◌==◌, not, Option, none, some, List, [], ◌∷◌, ◌++◌, retain, find, leb, ◌&&◌,
}

-- A message in the stream: its sequence number, the user whose subject it is on, its payload.
pub record Queued (T : Type 0) : Type 0 where
  pub sequence : ℕ
  pub recipient : ℕ
  pub payload : T

pub record JetStream (T : Type 0) : Type 1 where
  pub Stream : Type 0
  pub queued : Stream → List (Queued T)
  -- a publish with its acknowledgement: `none` is an error, else the sequence number
  pub publish : ℕ → T → Stream → Option ℕ × Stream
  -- a new consumer on a user's subject and the messages that it fetches, at most so many
  pub fetch : ℕ → ℕ → Stream → Option (List (Queued T))
  -- an acknowledgement, and `delete_message`; both may fail and then do nothing
  pub ack : ℕ → Stream → Stream
  pub delete_message : ℕ → Stream → Stream
  -- `get_first_raw_message_by_subject` from a sequence number on: an error is `none`
  pub first_from : ℕ → ℕ → Stream → Option (Option (Queued T))
  pub queued-publish :
      (u : ℕ) (p : T) (s : Stream) (n : ℕ)
      → (publish u p s).0 ≡ some n
      → queued (publish u p s).1
        ≡ queued s ++ record { sequence = n; recipient = u; payload = p } ∷ []
  -- when the acknowledgement is lost, the message may be there all the same
  pub queued-publish_none :
      (u : ℕ) (p : T) (s : Stream)
      → (publish u p s).0 ≡ none
      → (queued (publish u p s).1 ≡ queued s)
        ⊎ ((n : ℕ) × (queued (publish u p s).1
              ≡ queued s ++ record { sequence = n; recipient = u; payload = p } ∷ []))
  pub first_from-find :
      (u n : ℕ) (s : Stream) (o : Option (Queued T))
      → first_from u n s ≡ some o
      → o ≡ find (λ m. m.recipient == u && leb n m.sequence) (queued s)
  pub queued-ack :
      (n : ℕ) (s : Stream)
      → (queued (ack n s) ≡ queued s)
        ⊎ (queued (ack n s) ≡ retain (λ m. not (m.sequence == n)) (queued s))
  pub queued-delete_message :
      (n : ℕ) (s : Stream)
      → (queued (delete_message n s) ≡ queued s)
        ⊎ (queued (delete_message n s) ≡ retain (λ m. not (m.sequence == n)) (queued s))
