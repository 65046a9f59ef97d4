-- ===== src/Tests/Search.antt =====
-- Concrete runs of apps/api/src/search.rs.
use epistl.Prelude.{none, ◌+◌, ◌*◌, ◌≤◌, ◌≡◌, refl, [], ◌∷◌, map, arith}
use epistl.Db.{User, Tables}
use epistl.Search.RateLimiter.{rate_limit_max_requests, Window, try_acquire, passed}
use epistl.Search.RateLimiter.Bounds.{passed_any_stretch}
use epistl.Search.Like.{tokens, like, ilike_prefix}
use epistl.Search.Users.{matches}
use epistl.Tests.SampleWire.{Tree, sample_wire}
use epistl.Db.Session.{App}

abbrev nearly_spent : Window
nearly_spent = record { started_at = 5; count = 29 }

two_more : passed nearly_spent (6 ∷ 7 ∷ []) ≡ 1
unfolding passed try_acquire
two_more = refl

passed_any_stretch_example :
    passed nearly_spent (60_000_000_004 ∷ 60_000_000_005 ∷ []) + 29 ≤ 2 * rate_limit_max_requests
passed_any_stretch_example =
    passed_any_stretch nearly_spent 60_000_000_004 (60_000_000_004 ∷ 60_000_000_005 ∷ [])
      (omega arith) (omega arith) (omega arith)

abbrev tables : Tables
tables = record {
  users =
      record { id = 1; email = "ann@x"; username = "ann"; image = none; updated_at = 0 }
      ∷ record { id = 2; email = "anna@x"; username = "anna"; image = none; updated_at = 0 }
      ∷ [];
  sessions = [];
  accounts = [];
  contacts = [];
  contact_requests = [];
  user_keys = [];
  push_tokens = [];
}

found : map (λ (u : User). u.id) (matches sample_wire "ann" 1 tables) ≡ 2 ∷ []
unfolding matches ilike_prefix like tokens
found = refl

abbrev app : App Tree
app = record { db = tables; hub = record { entries = []; gone = []; sent = [] } }
