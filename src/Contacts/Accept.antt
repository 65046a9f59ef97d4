-- ===== src/Contacts/Accept.antt =====
-- `accept_contact_request` (apps/api/src/contacts.rs): its two writes run together or not at all.
use epistl.Prelude.{ℕ, ◌≡◌, refl, ◌==◌, true, some, find}
use epistl.Wire.{Wire}
use epistl.Registry.{text, get as registry_get}
use epistl.Http.{no_content}
use epistl.Db.{ContactRequest, Status, pending, declined, Tables}
use epistl.Db.Session.{Env, App, apply, run, drift}
use epistl.Db.Session.Rules.{
  Ends-pure, Ends-return_if, Ends-begin_or, Ends-execute_or, Ends-commit_or, run-Ends,
}
use epistl.Db.Session.Atomic.{Atomic, unchanged, unseen, done}
use epistl.Contacts.Sql.{is_pending, insert_contacts_both_ways, delete_request, request_by_id}
use epistl.Contacts.Handlers.{Caller, not_found, push_to, accepted_frame, accept_contact_request}
use epistl.Contacts.Rules.{into_response_fails, Ends-recipient, Ends-push_frame}

-- The two writes of an acceptance.
abbrev pub befriend : Env → ℕ → ContactRequest → Tables → Tables
befriend env id q t = apply (delete_request id) (
    apply
      (insert_contacts_both_ways q.requester_user_id q.recipient_user_id (env.uuid 2) (env.now 2))
      t)

-- The request of that id is pending, and the caller is its recipient.
pub record IsOwnIncoming (user : Caller) (id : ℕ) (t : Tables) (q : ContactRequest) : Type 0 where
  pub found : find (λ (r : ContactRequest). r.id == id) t.contact_requests ≡ some q
  pub own : q.recipient_user_id ≡ user.id
  pub live : q.status ≡ pending

pub eq_of_is_pending : (s : Status) → is_pending s ≡ true → s ≡ pending
eq_of_is_pending pending h = refl
eq_of_is_pending declined h = cc

module _ (w : Wire) (user : Caller) (id : ℕ) (env : Env) (a : App w.Text) where
  -- An acceptance runs both writes in one transaction, or none.
  pub accept_writes :
      let (r, b) = run (accept_contact_request w user id) env a in
      Atomic w env a
        (IsOwnIncoming user id (drift env 2 a.db))
        5
        (befriend env id)
        (λ q.
          push_to
            (registry_get q.requester_user_id a.hub)
            (text (w.to_text (accepted_frame w id user)))
            a.hub)
        (λ _. no_content w)
        r
        b
  unfolding accept_contact_request request_by_id
  accept_writes = run-Ends (Atomic w env a _ 5 _ _ _) (accept_contact_request w user id) env a (
      Ends-begin_or _ _ (unchanged 1 refl refl refl) (
        Ends-recipient w _ _ _ (λ e. unchanged 2 refl refl (into_response_fails w e))
          (λ q found own live.
            let ok : IsOwnIncoming user id (drift env 2 a.db) q = record {
              found = found;
              own = own;
              live = eq_of_is_pending q.status live;
            } in
            Ends-execute_or _ _ _ (unchanged 3 refl refl refl) (λ _ _ _.
              Ends-execute_or _ _ _ (unchanged 4 refl refl refl) (λ rows _ _.
                Ends-return_if _ _ _ (λ _. unchanged 4 refl refl (into_response_fails w not_found))
                  (λ _.
                    Ends-commit_or _ _ (unchanged 5 refl refl refl) (unseen q ok refl refl refl)
                      (Ends-push_frame w _ _ _ (Ends-pure (done q ok refl refl refl)))))))))
