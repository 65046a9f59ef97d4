-- ===== src/Tests/Handlers.antt =====
-- Concrete runs of the smaller handlers of apps/api/src.
use epistl.Prelude.{
  ◌↔◌, ◌≢◌, find, take, ℕ, zero, suc, String, ◌≡◌, refl, ◌+◌, ◌-◌, ◌*◌, ◌==◌, ◌&&◌, true, false,
  Option, none, some, List, [], ◌∷◌, codes, any, retain, str_eq, arith, if◌then◌else◌,
}
use epistl.Wire.{Wire}
use epistl.Http.{succeeded}
use epistl.Db.{User}
use epistl.Db.Session.{App, run, drift, ◌>>=◌, autocommit, or_return, return_if}
use epistl.Contacts.Sql.{has_user}
use epistl.Contacts.Handlers.{Caller}
use epistl.Keys.{UploadKeysPayload, upsert_keys, upload_keys, decode_field}
use epistl.Keys.Upload.{IsUpload, upload_keys-IsUpload}
use epistl.PushTokens.{upsert_token, register_push_token}
use epistl.Account.{delete_user, delete_account}
use epistl.Account.Cascade.{is_named, IsReferential, delete_account_forgets}
use epistl.Auth.{bearer_token, from_request_parts, Dispatch, SignupPayload, signup}
use epistl.Auth.Bearer.{append, from_request_parts-session}
use epistl.Username.{change_username}
use epistl.Username.Unique.{IsUnique, change_username-IsUnique}
use epistl.Messages.{get_queued}
use epistl.Messages.Scan.{is_from_sender, reply_for, get_queued-find}
use epistl.Tests.SampleWire.{Tree, sample_wire}
use epistl.Tests.SampleStream.{sample_stream}
use epistl.Tests.Contacts.{calm, app, bob}
use epistl.Tests.Relay.{one_waiting}

abbrev zeros : ℕ → List ℕ
zeros zero = []
zeros (suc n) = 0 ∷ zeros n

abbrev decimal : ℕ → List ℕ → ℕ
decimal n [] = n
decimal n (c ∷ cs) = decimal (10 * n + (c - 48)) cs

-- A text in base64 stands for as many zeros as it says.
abbrev keys_wire : Wire
keys_wire = record sample_wire { base64_decode = λ s. some (zeros (decimal 0 (codes s))) }

abbrev payload : UploadKeysPayload
payload = record {
  x25519_public_key_b64 = some "32";
  kyber_public_key_b64 = some "1184";
  dilithium_public_key_b64 = some "1952";
  prekey_signature_b64 = some "3309";
}

uploads : succeeded (run (upload_keys keys_wire bob payload) calm app).0 ≡ true
unfolding run upload_keys ◌>>=◌ autocommit or_return return_if decode_field upsert_keys has_user
uploads = refl

upload_keys-IsUpload_example :
    let (r, b) = run (upload_keys keys_wire bob payload) calm app in
    IsUpload keys_wire bob payload calm app r b
upload_keys-IsUpload_example = upload_keys-IsUpload keys_wire bob payload calm app

registers : succeeded (run (register_push_token sample_wire bob (some "t")) calm app).0 ≡ true
unfolding run register_push_token ◌>>=◌ autocommit or_return return_if upsert_token has_user
registers = refl

deletes : succeeded (run (delete_account sample_wire bob) calm app).0 ≡ true
unfolding run delete_account ◌>>=◌ autocommit or_return delete_user
deletes = refl

delete_account_forgets_example :
    let out = (run (delete_account sample_wire bob) calm app).1.db in
    (is_named 2 out ≡ false)
    × ((v : ℕ) → (v == 2) ≡ false → has_user v out ≡ has_user v app.db)
    × (IsReferential app.db → IsReferential out)
delete_account_forgets_example = delete_account_forgets sample_wire bob calm app deletes

abbrev abc : String
abc = "abc"

abbrev session_of : String → Option (Option ℕ)
session_of t = some (if str_eq t "abc" then some 2 else none)

abbrev user_of : ℕ → Option (Option Caller)
user_of id = some (if id == 2 then some bob else none)

from_request_parts-session_example :
    (from_request_parts session_of user_of (some "Bearer abc") ≡ some bob) ↔ (
      (t : String) × (id : ℕ) × (some "Bearer abc" ≡ some (append "Bearer " t))
      × (t ≢ "")
      × (session_of t ≡ some (some id))
      × (user_of id ≡ some (some bob)))
from_request_parts-session_example =
    from_request_parts-session session_of user_of bob (some "Bearer abc")

let_in : from_request_parts session_of user_of (some "Bearer abc") ≡ some bob
unfolding from_request_parts bearer_token epistl.Auth.authenticate_token
let_in = refl

abbrev refusing : Dispatch sample_wire
refusing path body env c = ((422, body), c)

abbrev cid : SignupPayload
cid = record { email = some "cid@x"; password = some "secret"; username = some "cid" }

-- Bob alone
abbrev alone : App Tree
alone = record app {
  db = record app.db {
    users = record { id = 2; email = "bob@x"; username = "bob"; image = none; updated_at = 0 } ∷ [];
  };
}

alone-IsUnique : (k : ℕ) → IsUnique (drift calm k alone.db)
alone-IsUnique zero = record { ids = λ u. ground arith; names = λ n. ground arith }
alone-IsUnique (suc k) = alone-IsUnique k

change_username-IsUnique_example :
    let (r, b) =
      run (change_username sample_wire (λ s. true) (λ s. s) bob (some "rob")) calm alone in
    IsUnique b.db
    × (succeeded r ≡ true
        → (true ≡ true)
          × (any (λ (x : User). x.id == 2 && str_eq x.username "rob") b.db.users ≡ true))
change_username-IsUnique_example =
    change_username-IsUnique sample_wire (λ s. true) (λ s. s) bob (some "rob") calm alone
      alone-IsUnique

get_queued-find_example :
    get_queued sample_wire sample_stream (some (λ _. one_waiting.stream)) 2 1
    ≡ reply_for sample_wire "1" (
        find
          (is_from_sender sample_wire "1")
          (take 256 (retain (λ m. m.recipient == 2) one_waiting.stream.1)))
get_queued-find_example =
    get_queued-find sample_wire sample_stream 2 1 one_waiting.stream (λ n. (_, refl)) refl
