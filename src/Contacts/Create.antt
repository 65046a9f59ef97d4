-- ===== src/Contacts/Create.antt =====
-- `create_contact_request` and `add_contact` (apps/api/src/contacts.rs).
use epistl.Prelude.{ℕ, String, ◌≡◌, ◌==◌, false, Option, none, some, get_or}
use epistl.Wire.{Wire}
use epistl.Registry.{get as registry_get}
use epistl.Db.{ContactRequest, pending, Tables}
use epistl.Db.Session.{Env, drift}
use epistl.Db.Session.Atomic.{Atomic}
use epistl.Contacts.Sql.{user_by_email, user_by_username, contact_either_way, pending_request}
use epistl.Contacts.Handlers.{Caller}

-- The row that a new request becomes.
abbrev pub new_row : ℕ → ℕ → ℕ → ℕ → ContactRequest
new_row id now requester recipient = record {
  id = id;
  requester_user_id = requester;
  recipient_user_id = recipient;
  status = pending;
  created_at = now;
  responded_at = none;
}

-- The row that the handler inserts by its fourth statement.
abbrev pub new_request : Env → ℕ → ℕ → ContactRequest
new_request env = new_row (env.uuid 3 0) (env.now 3)

-- The user that a request names, by its email or else its username.
module _ (w : Wire) where
  abbrev pub target_of : Option String → Option String → Tables → Option (ℕ × String)
  target_of none (some username) = user_by_username (w.lower username)
  target_of email _ = user_by_email (get_or email "")

-- What the handler has checked of the target before it inserts.
pub record IsRequestable (w : Wire) (user : Caller) (email username : Option String) (env : Env)
    (t : Tables) (q : ℕ × String) : Type 0 where
  pub known : target_of w email username (drift env 1 t) ≡ some q
  pub other : (q.0 == user.id) ≡ false
  pub apart : contact_either_way user.id q.0 (drift env 2 t) ≡ false
  pub uncrossed : pending_request q.0 user.id (drift env 3 t) ≡ none
