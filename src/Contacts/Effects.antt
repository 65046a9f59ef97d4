-- ===== src/Contacts/Effects.antt =====
-- What the writes of apps/api/src/contacts.rs leave in the tables, and so what a successful reply
-- says of them.
use epistl.Prelude.{
  ℕ, ◌≡◌, refl, ◌==◌, ==_refl, true, false, ◌&&◌, not, some, none, any, find, List, [], ◌∷◌, ◌++◌,
  retain, Bool-cases, inl, inr, arith, if◌then◌else◌,
}
use epistl.Wire.{Wire}
use epistl.Http.{succeeded}
use epistl.Db.{Contact, ContactRequest, Tables}
use epistl.Db.Session.{Env, App, apply, run, drift}
use epistl.Db.Session.Atomic.{Atomic-succeeded}
use epistl.Contacts.Sql.{
  is_pair, has_user, has_contact, insert_contact, insert_contacts_both_ways, delete_contact,
  request_by_id,
}
use epistl.Contacts.Handlers.{Caller, remove_contact}
use epistl.Contacts.Remove.{unfriend, remove-Atomic}

-- The tables with the contact in them, once.
pub with_contact : ℕ → ℕ → ℕ → ℕ → Tables → Tables
with_contact a b id now t =
    if any (λ (c : Contact). c.owner_user_id == a && c.contact_user_id == b) t.contacts
    then t
    else record t {
      contacts =
          t.contacts
          ++ record { id = id; owner_user_id = a; contact_user_id = b; created_at = now } ∷ [];
    }

module _ (a b id now : ℕ) (t : Tables) where
  has_user-with_contact : (u : ℕ) → has_user u (with_contact a b id now t) ≡ has_user u t
  unfolding with_contact has_user
  has_user-with_contact u = elim (Bool-cases (has_contact a b t)) [
    | inl old ↦ rw old refl
    | inr new ↦ rw new refl
  ]

  apply-insert_contact :
      has_user a t ≡ true
      → has_user b t ≡ true
      → (x : _) × (insert_contact a b id now t ≡ some (x, with_contact a b id now t))
  unfolding insert_contact with_contact
  apply-insert_contact ha hb = elim (Bool-cases (has_contact a b t)) [
    | inl old ↦ (none, rw old refl)
    | inr new ↦ (some now, rw (new, ha, hb) refl)
  ]

module _ (a b : ℕ) (uuid : ℕ → ℕ) (now : ℕ) (t : Tables) (ha : has_user a t ≡ true)
    (hb : has_user b t ≡ true) where
  pub apply-insert_contacts_both_ways :
      apply (insert_contacts_both_ways a b uuid now) t
      ≡ with_contact b a (uuid 1) now (with_contact a b (uuid 0) now t)
  unfolding insert_contacts_both_ways
  apply-insert_contacts_both_ways =
      let t₁ = with_contact a b (uuid 0) now t in
      let first = apply-insert_contact a b (uuid 0) now t ha hb in
      let second =
        apply-insert_contact b a (uuid 1) now t₁ (rw has_user-with_contact hb)
          (rw has_user-with_contact ha) in
      rw (first.1, apply) (rw (second.1, apply) refl)

any-retain_pair :
    (a b c d : ℕ) (cs : List Contact)
    → any (is_pair c d) (retain (λ x. not (is_pair a b x)) cs)
      ≡ (if c == a && d == b then false else any (is_pair c d) cs)
any-retain_pair a b c d [] = ground arith
any-retain_pair a b c d (x ∷ cs) = ground (arith, any-retain_pair a b c d cs)

-- A deletion takes its own pair and no other.
has_contact-delete_contact :
    (a b c d : ℕ) (t : Tables)
    → has_contact c d (apply (delete_contact a b) t)
      ≡ (if c == a && d == b then false else has_contact c d t)
unfolding delete_contact
has_contact-delete_contact a b c d t = any-retain_pair a b c d t.contacts

unfriend_lem :
    (a b : ℕ) (t : Tables)
    → (has_contact a b (unfriend a b t) ≡ false)
      × (has_contact b a (unfriend a b t) ≡ false)
      × ((c d : ℕ)
          → (c == a && d == b) ≡ false
          → (c == b && d == a) ≡ false
          → has_contact c d (unfriend a b t) ≡ has_contact c d t)
unfriend_lem a b t =
    let u = apply (delete_contact a b) t in
    (
      rw (has_contact-delete_contact b a a b u)
          (rw (has_contact-delete_contact a b a b t) (ground (arith, ==_refl a, ==_refl b))),
      rw (has_contact-delete_contact b a b a u) (ground (arith, ==_refl a, ==_refl b)),
      λ c d h k.
          rw (has_contact-delete_contact b a c d u, k, has_contact-delete_contact a b c d t, h)
            refl,
    )

pub request_by_id_lem :
    (id : ℕ) (t : Tables) (q : ContactRequest)
    → find (λ (r : ContactRequest). r.id == id) t.contact_requests ≡ some q
    → request_by_id id t ≡ some q
unfolding request_by_id
request_by_id_lem id t q e = e

-- After a successful removal neither party has the other as a contact, and the contacts of every
-- other pair are what they were.
pub remove_mutual :
    (w : Wire) (user : Caller) (contact : ℕ) (env : Env) (a : App w.Text)
    → succeeded (run (remove_contact w user contact) env a).0 ≡ true
    → let out = (run (remove_contact w user contact) env a).1.db in
      (has_contact user.id contact out ≡ false)
      × (has_contact contact user.id out ≡ false)
      × ((c d : ℕ)
          → (c == user.id && d == contact) ≡ false
          → (c == contact && d == user.id) ≡ false
          → has_contact c d out ≡ has_contact c d (drift env 4 a.db))
remove_mutual w user contact env a s =
    let (_, _, e, _, _) = Atomic-succeeded (remove-Atomic w user contact env a) s in
    let out = unfriend_lem user.id contact (drift env 4 a.db) in
    (rw e out.0, rw e out.1, λ c d h k. rw e (out.2 c d h k))
