-- ===== src/Tests/Contacts.antt =====
-- Concrete runs of apps/api/src/contacts.rs.
use epistl.Prelude.{◌+◌, ◌≡◌, refl, true, false, some, none, [], ◌∷◌}
use epistl.Registry.{get as registry_get}
use epistl.Http.{succeeded}
use epistl.Db.{pending}
use epistl.Db.Session.{
  Env, App, run, ◌>>=◌, begin, query, execute, commit, autocommit, or_return, return_if,
}
use epistl.Db.Session.Atomic.{Atomic}
use epistl.Contacts.Sql.{
  user_by_username, contact_either_way, pending_request, delete_contact, insert_request,
}
use epistl.Contacts.Handlers.{
  Caller, find_target, return_some, remove_contact, create_contact_request,
}
use epistl.Tests.SampleWire.{Tree, sample_wire}

-- Nobody else is at work and nothing fails.
abbrev pub calm : Env
calm = record {
  others = λ n t. t;
  fails = λ n. false;
  lands = λ n. false;
  uuid = λ n row. 100 + row;
  now = λ n. 7;
}

abbrev ann : Caller
ann = record { id = 1; email = "ann@x" }

abbrev pub bob : Caller
bob = record { id = 2; email = "bob@x" }

abbrev pub app : App Tree
app = record {
  db = record {
    users =
        record { id = 1; email = "ann@x"; username = "ann"; image = none; updated_at = 0 }
        ∷ record { id = 2; email = "bob@x"; username = "bob"; image = none; updated_at = 0 }
        ∷ [];
    sessions = [];
    accounts = [];
    contacts = [];
    contact_requests =
        record {
          id = 9;
          requester_user_id = 1;
          recipient_user_id = 2;
          status = pending;
          created_at = 3;
          responded_at = none;
        }
        ∷ [];
    user_keys = [];
    push_tokens = [];
  };
  hub = record { entries = (1, 50) ∷ []; gone = []; sent = [] };
}

-- Ann and Bob have each other as contacts.
abbrev friends : App Tree
friends = record app {
  db = record app.db {
    contacts =
        record { id = 11; owner_user_id = 1; contact_user_id = 2; created_at = 3 }
        ∷ record { id = 12; owner_user_id = 2; contact_user_id = 1; created_at = 3 }
        ∷ [];
    contact_requests = [];
  };
}

removes : succeeded (run (remove_contact sample_wire bob 1) calm friends).0 ≡ true
unfolding run remove_contact ◌>>=◌ begin query execute commit or_return return_if delete_contact
removes = refl

abbrev strangers : App Tree
strangers = record app { db = record app.db { contact_requests = [] } }

creates :
    (run (create_contact_request sample_wire bob none (some "ann")) calm strangers).0.status ≡ 201
unfolding run create_contact_request ◌>>=◌ query autocommit or_return return_if return_some
    find_target user_by_username insert_request contact_either_way pending_request
creates = refl
