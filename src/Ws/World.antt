-- ===== src/Ws/World.antt =====
-- All connections of apps/api/src/ws.rs together, as steps on the state that they share.
pub mod Ownership
use epistl.Prelude.{ℕ, ◌≡◌, Option, none, some, List, [], ◌∷◌, ◌++◌}
use epistl.Wire.{Wire}
use epistl.Db.{PushToken}
use epistl.Registry.{Entries, lookup}
use epistl.Relay.JetStream.{JetStream}
use epistl.Relay.Frames.{Task}
use epistl.Relay.Background.{run_task}
use epistl.Relay.Sending.{Moment, St}
use epistl.Ws.{Message, connect, receive, disconnect}

module _ (w : Wire) (j : JetStream w.Text) where
  pub record World : Type 0 where
    pub st : St w j
    -- every channel that was made, with the user whose connection made it
    pub owners : Entries

  abbrev pub dropped : ℕ → St w j → St w j
  dropped tx st = record st { hub = record st.hub { gone = tx ∷ st.hub.gone } }

  pub data Step (x : World) : World → Type 0 where
    -- a channel is new when `handle_socket` makes it
    connects :
        (user tx : ℕ)
        → lookup tx x.owners ≡ none
        → Step x (record { st = connect w j user tx x.st; owners = (tx, user) ∷ x.owners })
    receives :
        (m : Moment) (user tx : ℕ) (message : Message w.Text)
        → lookup tx x.owners ≡ some user
        → Step x (record { st = (receive w j m user tx message x.st).1; owners = x.owners })
    disconnects :
        (user tx : ℕ)
        → lookup tx x.owners ≡ some user
        → Step x (record { st = disconnect w j user tx x.st; owners = x.owners })
    -- the forward task ends because the sink failed or after a close frame
    drops : (tx : ℕ) → Step x (record { st = dropped tx x.st; owners = x.owners })
    runs :
        (rows : Option (List PushToken)) (ts us : List (Task w.Value)) (t : Task w.Value)
        → x.st.tasks ≡ ts ++ t ∷ us
        → Step x (record {
          st = run_task w j rows t (record x.st { tasks = ts ++ us });
          owners = x.owners;
        })

  pub data Reachable : World → Type 0 where
    started :
        (s : j.Stream)
        → Reachable (record {
          st = record {
            hub = record { entries = []; gone = []; sent = [] };
            stream = s;
            tasks = [];
            pushes = [];
          };
          owners = [];
        })
    stepped : (x y : World) → Reachable x → Step x y → Reachable y
