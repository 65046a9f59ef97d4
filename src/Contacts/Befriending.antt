-- ===== src/Contacts/Befriending.antt =====
-- What an acceptance of a contact request does to the tables (`accept_contact_request` in
-- apps/api/src/contacts.rs).
use epistl.Prelude.{ℕ, ◌==◌, ◌&&◌, not, retain}
use epistl.Wire.{Wire}
use epistl.Registry.{get as registry_get}
use epistl.Db.{ContactRequest, Tables}
use epistl.Db.Session.{Env}
use epistl.Db.Session.Atomic.{Atomic}
use epistl.Contacts.Sql.{is_pending}
use epistl.Contacts.Effects.{with_contact}

-- The tables with each of the two as a contact of the other and without the request.
abbrev pub befriended : Env → ℕ → ContactRequest → Tables → Tables
befriended env id q t =
    let asker = q.requester_user_id in
    let asked = q.recipient_user_id in
    let u =
      with_contact asked asker (env.uuid 2 1) (env.now 2)
        (with_contact asker asked (env.uuid 2 0) (env.now 2) t) in
    record u {
      contact_requests =
          retain (λ (r : ContactRequest). not (r.id == id && is_pending r.status))
            u.contact_requests;
    }
