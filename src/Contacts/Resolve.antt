-- ===== src/Contacts/Resolve.antt =====
-- `cancel_contact_request` and `decline_contact_request` (apps/api/src/contacts.rs).
use epistl.Prelude.{ℕ, ◌≡◌, refl, true, some}
use epistl.Wire.{Wire}
use epistl.Http.{no_content}
use epistl.Db.{ContactRequest, Tables}
use epistl.Db.Session.{Env, App, apply, run, drift}
use epistl.Db.Session.Rules.{
  Ends-pure, Ends-return_if, Ends-begin_or, Ends-execute_or, Ends-commit_or, run-Ends,
}
use epistl.Db.Session.Atomic.{Atomic, unchanged, unseen, done}
use epistl.Contacts.Sql.{is_pending, delete_request, decline_request, request_by_id}
use epistl.Contacts.Handlers.{Caller, not_found, cancel_contact_request, decline_contact_request}
use epistl.Contacts.Rules.{into_response_fails, Ends-recipient, Ends-requester}
use epistl.Contacts.Accept.{eq_of_is_pending, IsOwnIncoming}

-- The request of that id is pending, and the caller has made it.
pub record IsOwnOutgoing (user : Caller) (id : ℕ) (t : Tables) (q : ContactRequest) : Type 0 where
  pub found : request_by_id id t ≡ some q
  pub own : q.requester_user_id ≡ user.id
  pub live : is_pending q.status ≡ true

module _ (w : Wire) (user : Caller) (id : ℕ) (env : Env) (a : App w.Text) where
  -- A cancellation removes the pending request, or changes nothing; it does so only for the
  -- caller's own pending request; nobody is pushed a frame. If it reports failure, nothing has
  -- changed, except that with an internal error the writes may have taken place.
  pub cancel-Atomic :
      let (r, b) = run (cancel_contact_request w user id) env a in
      Atomic w env a
        (IsOwnOutgoing user id (drift env 2 a.db))
        4
        (λ _. apply (delete_request id))
        (λ _. a.hub)
        (λ _. no_content w)
        r
        b
  unfolding cancel_contact_request
  cancel-Atomic = run-Ends (Atomic w env a _ 4 _ _ _) (cancel_contact_request w user id) env a (
      Ends-begin_or _ _ (unchanged 1 refl refl refl) (
        Ends-requester w _ _ _ (λ e. unchanged 2 refl refl (into_response_fails w e))
          (λ q found own live.
            let ok : IsOwnOutgoing user id (drift env 2 a.db) q = record {
              found = found;
              own = own;
              live = live;
            } in
            Ends-execute_or _ _ _ (unchanged 3 refl refl refl) (λ rows _ _.
              Ends-return_if _ _ _ (λ _. unchanged 3 refl refl (into_response_fails w not_found))
                (λ _.
                  Ends-commit_or _ _ (unchanged 4 refl refl refl) (unseen q ok refl refl refl)
                    (Ends-pure (done q ok refl refl refl)))))))

  -- A refusal marks the pending request declined and keeps its row, or changes nothing; it does so
  -- only for a pending request to the caller; nobody is pushed a frame. If it reports failure,
  -- nothing has changed, except that with an internal error the writes may have taken place.
  pub decline-Atomic :
      let (r, b) = run (decline_contact_request w user id) env a in
      Atomic w env a
        (IsOwnIncoming user id (drift env 2 a.db))
        4
        (λ _. apply (decline_request id (env.now 2)))
        (λ _. a.hub)
        (λ _. no_content w)
        r
        b
  unfolding decline_contact_request request_by_id
  decline-Atomic = run-Ends (Atomic w env a _ 4 _ _ _) (decline_contact_request w user id) env a (
      Ends-begin_or _ _ (unchanged 1 refl refl refl) (
        Ends-recipient w _ _ _ (λ e. unchanged 2 refl refl (into_response_fails w e))
          (λ q found own live.
            let ok : IsOwnIncoming user id (drift env 2 a.db) q = record {
              found = found;
              own = own;
              live = eq_of_is_pending q.status live;
            } in
            Ends-execute_or _ _ _ (unchanged 3 refl refl refl) (λ rows _ _.
              Ends-return_if _ _ _ (λ _. unchanged 3 refl refl (into_response_fails w not_found))
                (λ _.
                  Ends-commit_or _ _ (unchanged 4 refl refl refl) (unseen q ok refl refl refl)
                    (Ends-pure (done q ok refl refl refl)))))))
