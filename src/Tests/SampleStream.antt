-- ===== src/Tests/SampleStream.antt =====
-- A stream to evaluate the relay with: the next sequence number, and the messages in order.
use epistl.Prelude.{
  ℕ, suc, ◌⊎◌, ◌≡◌, refl, inr, ◌==◌, ◌&&◌, Option, none, some, List, [], ◌∷◌, ◌++◌, not, leb, find,
  retain, take,
}
use epistl.Relay.JetStream.{Queued, JetStream}
use epistl.Tests.SampleWire.{Tree}

abbrev pub Log : Type 0
Log = ℕ × List (Queued Tree)

abbrev queued : Log → List (Queued Tree)
queued s = s.1

abbrev publish : ℕ → Tree → Log → Option ℕ × Log
publish u p s =
    (some s.0, (suc s.0, s.1 ++ record { sequence = s.0; recipient = u; payload = p } ∷ []))

abbrev remove : ℕ → Log → Log
remove n s = (s.0, retain (λ m. not (m.sequence == n)) s.1)

pub kept_published :
    (u : ℕ) (p : Tree) (s : Log) (n : ℕ)
    → (publish u p s).0 ≡ some n
    → (publish u p s).1.1 ≡ s.1 ++ record { sequence = n; recipient = u; payload = p } ∷ []
kept_published u p s n h = cc

pub lost_published :
    (u : ℕ) (p : Tree) (s : Log)
    → (publish u p s).0 ≡ none
    → ((publish u p s).1.1 ≡ s.1)
      ⊎ ((n : ℕ) × ((publish u p s).1.1
            ≡ s.1 ++ record { sequence = n; recipient = u; payload = p } ∷ []))
lost_published u p s h = cc

pub found_first :
    (u n : ℕ) (s : Log) (o : Option (Queued Tree))
    → some (find (λ m. m.recipient == u && leb n m.sequence) s.1) ≡ some o
    → o ≡ find (λ m. m.recipient == u && leb n m.sequence) s.1
found_first u n s o h = cc h

abbrev pub sample_stream : JetStream Tree
sample_stream = record {
  Stream = Log;
  queued = queued;
  publish = publish;
  fetch = λ n u s. some (take n (retain (λ m. m.recipient == u) s.1));
  ack = remove;
  delete_message = remove;
  first_from = λ u n s. some (find (λ m. m.recipient == u && leb n m.sequence) s.1);
  first_from-find = found_first;
  queued-publish = kept_published;
  queued-publish_none = lost_published;
  queued-ack = λ n s. inr refl;
  queued-delete_message = λ n s. inr refl;
}
