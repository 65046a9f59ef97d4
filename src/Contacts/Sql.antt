-- ===== src/Contacts/Sql.antt =====
-- The SQL statements of apps/api/src/contacts.rs, as functions on the tables.
use epistl.Prelude.{
  ℕ, String, ◌==◌, Bool, true, false, ◌&&◌, ◌||◌, not, Option, none, some, List, [], ◌∷◌, ◌++◌, any,
  find, retain, count, filter_map, sort_by, map, str_eq, if◌then◌else◌,
}
use epistl.Db.{User, Contact, ContactRequest, UserKeys, Status, pending, declined, Tables}
use epistl.Db.Session.{Write}

-- `REFERENCES users(id)`
unfoldable pub has_user : ℕ → Tables → Bool
has_user u t = any (λ (x : User). x.id == u) t.users

abbrev pub is_pair : ℕ → ℕ → Contact → Bool
is_pair owner contact c = c.owner_user_id == owner && c.contact_user_id == contact

abbrev pub is_pending : Status → Bool
is_pending pending = true
is_pending declined = false

abbrev pub is_pending_pair : ℕ → ℕ → ContactRequest → Bool
is_pending_pair requester recipient r =
    (r.requester_user_id == requester && r.recipient_user_id == recipient) && is_pending r.status

abbrev pub is_pending_id : ℕ → ContactRequest → Bool
is_pending_id id r = r.id == id && is_pending r.status

-- SELECT id, email FROM users WHERE email = $1
unfoldable pub user_by_email : String → Tables → Option (ℕ × String)
user_by_email email t = elim (find (λ (x : User). str_eq x.email email) t.users) [
  | none ↦ none
  | some x ↦ some (x.id, x.email)
]

-- SELECT id, email FROM users WHERE username = lower($1), with the name in lower case
unfoldable pub user_by_username : String → Tables → Option (ℕ × String)
user_by_username name t = elim (find (λ (x : User). str_eq x.username name) t.users) [
  | none ↦ none
  | some x ↦ some (x.id, x.email)
]

abbrev pub has_contact : ℕ → ℕ → Tables → Bool
has_contact owner contact t = any (is_pair owner contact) t.contacts

-- SELECT EXISTS of a row in either direction
unfoldable pub contact_either_way : ℕ → ℕ → Tables → Bool
contact_either_way a b t = any (λ c. is_pair a b c || is_pair b a c) t.contacts

-- INSERT INTO contacts … ON CONFLICT DO NOTHING RETURNING created_at
unfoldable pub insert_contact : ℕ → ℕ → ℕ → ℕ → Write (Option ℕ)
unfolding has_user
insert_contact owner contact id now t =
    if has_contact owner contact t
    then some (none, t)
    else if has_user owner t && has_user contact t
    then (let row : Contact = record {
      id = id;
      owner_user_id = owner;
      contact_user_id = contact;
      created_at = now;
    } in
        some (some now, record t { contacts = t.contacts ++ row ∷ [] }))
    else none

-- INSERT INTO contacts … VALUES ($1, $2), ($2, $1) ON CONFLICT DO NOTHING
unfoldable pub insert_contacts_both_ways : ℕ → ℕ → (ℕ → ℕ) → ℕ → Write Unit
unfolding insert_contact
insert_contacts_both_ways a b uuid now t = elim (insert_contact a b (uuid 0) now t) [
  | none ↦ none
  | some (_, t₁) ↦ elim (insert_contact b a (uuid 1) now t₁) [
    | none ↦ none
    | some (_, t₂) ↦ some (tt, t₂)
  ]
]

-- DELETE FROM contacts WHERE owner_user_id = $1 AND contact_user_id = $2, with `rows_affected()`
unfoldable pub delete_contact : ℕ → ℕ → Write ℕ
delete_contact owner contact t = some (
  count (is_pair owner contact) t.contacts,
  record t { contacts = retain (λ c. not (is_pair owner contact c)) t.contacts },
)

-- SELECT id FROM contact_requests of the pending request from one user to another
unfoldable pub pending_request : ℕ → ℕ → Tables → Option ℕ
pending_request requester recipient t =
    elim (find (is_pending_pair requester recipient) t.contact_requests) [
      | none ↦ none
      | some r ↦ some r.id
    ]

-- INSERT INTO contact_requests … ON CONFLICT … WHERE status = 'pending' DO NOTHING RETURNING …
unfoldable pub insert_request : ℕ → ℕ → ℕ → ℕ → Write (Option ContactRequest)
unfolding has_user
insert_request requester recipient id now t =
    if any (is_pending_pair requester recipient) t.contact_requests
    then some (none, t)
    else if has_user requester t && has_user recipient t
    then (let row : ContactRequest = record {
      id = id;
      requester_user_id = requester;
      recipient_user_id = recipient;
      status = pending;
      created_at = now;
      responded_at = none;
    } in
        some (some row, record t { contact_requests = t.contact_requests ++ row ∷ [] }))
    else none

-- SELECT requester_user_id, recipient_user_id, status FROM contact_requests WHERE id = $1
unfoldable pub request_by_id : ℕ → Tables → Option ContactRequest
request_by_id id t = find (λ (r : ContactRequest). r.id == id) t.contact_requests

-- DELETE FROM contact_requests WHERE id = $1 AND status = 'pending', with `rows_affected()`
unfoldable pub delete_request : ℕ → Write ℕ
delete_request id t = some (
  count (is_pending_id id) t.contact_requests,
  record t { contact_requests = retain (λ r. not (is_pending_id id r)) t.contact_requests },
)

abbrev pub decline_row : ℕ → ℕ → ContactRequest → ContactRequest
decline_row id now r =
    if is_pending_id id r then record r { status = declined; responded_at = some now } else r

-- UPDATE contact_requests SET status = 'declined', responded_at = now() WHERE …, with `rows_affected()`
unfoldable pub decline_request : ℕ → ℕ → Write ℕ
decline_request id now t = some (
  count (is_pending_id id) t.contact_requests,
  record t { contact_requests = map (decline_row id now) t.contact_requests },
)

-- The row of a contact, its user and the user's keys.
pub record ContactRow : Type 0 where
  pub user_id : ℕ
  pub email : String
  pub username : String
  pub added_at : ℕ
  pub keys : Option UserKeys

abbrev pub contact_row : Tables → Contact → Option ContactRow
contact_row t c = elim (find (λ (x : User). x.id == c.contact_user_id) t.users) [
  | none ↦ none
  | some x ↦ some (record {
    user_id = c.contact_user_id;
    email = x.email;
    username = x.username;
    added_at = c.created_at;
    keys = find (λ (k : UserKeys). k.user_id == c.contact_user_id) t.user_keys;
  })
]

-- SELECT … FROM contacts JOIN users LEFT JOIN user_keys … ORDER BY c.created_at ASC
unfoldable pub contacts_of : ℕ → Tables → List ContactRow
contacts_of owner t = filter_map (contact_row t) (
    sort_by (λ (c : Contact). c.created_at)
      (retain (λ (c : Contact). c.owner_user_id == owner) t.contacts))

pub record PartyView : Type 0 where
  pub id : ℕ
  pub user_id : ℕ
  pub email : String
  pub username : String
  pub created_at : ℕ

abbrev pub party_view : (ContactRequest → ℕ) → Tables → ContactRequest → Option PartyView
party_view party t r = elim (find (λ (x : User). x.id == party r) t.users) [
  | none ↦ none
  | some x ↦ some (record {
    id = r.id;
    user_id = x.id;
    email = x.email;
    username = x.username;
    created_at = r.created_at;
  })
]

abbrev pub requests_where : (ContactRequest → Bool) → (ContactRequest → ℕ) → Tables → List PartyView
requests_where keep party t =
    filter_map (party_view party t)
      (sort_by (λ (r : ContactRequest). r.created_at) (retain keep t.contact_requests))

-- the pending requests to a user, with the requester of each
unfoldable pub incoming_of : ℕ → Tables → List PartyView
incoming_of u =
    requests_where (λ r. r.recipient_user_id == u && is_pending r.status) (λ r. r.requester_user_id)

-- the pending requests from a user, with the recipient of each
unfoldable pub outgoing_of : ℕ → Tables → List PartyView
outgoing_of u =
    requests_where (λ r. r.requester_user_id == u && is_pending r.status) (λ r. r.recipient_user_id)
