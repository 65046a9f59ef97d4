-- ===== src/Contacts/Rules.antt =====
-- The rules of Db/Session/Rules.antt, continued for the steps that the handlers of
-- apps/api/src/contacts.rs share.
use epistl.Prelude.{
  ℕ, ◌==◌, ◌≡◌, refl, inl, inr, true, false, some, Bool-cases, Option-cases, eq_of_==,
}
use epistl.Wire.{Wire}
use epistl.Registry.{text, get as registry_get}
use epistl.Http.{Response, succeeded}
use epistl.Db.{ContactRequest}
use epistl.Db.Session.{Env, App, Conn, ◌>>=◌, advance, app_of, query}
use epistl.Db.Session.Rules.{Ends}
use epistl.Contacts.Sql.{is_pending, request_by_id}
use epistl.Contacts.Handlers.{
  Reply, LoadPendingRequestError, not_found, internal, forbidden, push_to, push_frame,
  into_response, or_respond, check_recipient, check_requester, load_pending_request_as_recipient,
  load_pending_request_as_requester,
}

module _ (w : Wire) where
  pub into_response_fails : (e : LoadPendingRequestError) → succeeded (into_response w e) ≡ false
  unfolding into_response
  into_response_fails not_found = refl
  into_response_fails internal = refl
  into_response_fails (forbidden code) = refl

  module _ {P : Response w.Value → App w.Text → Type 0} {env : Env} {c : Conn w.Text} where
    -- The load and its reply: the caller is the recipient of a pending request.
    pub Ends-recipient :
        (id caller : ℕ) (k : ℕ × ℕ → Reply w (Response w.Value))
        → ((e : LoadPendingRequestError) → P (into_response w e) (app_of (advance env c)))
        → ((q : ContactRequest)
            → request_by_id id (c.uncommitted (env.others c.step c.db)) ≡ some q
            → q.recipient_user_id ≡ caller
            → is_pending q.status ≡ true
            → Ends P (k (q.requester_user_id, q.recipient_user_id)) env (advance env c))
        → Ends P (load_pending_request_as_recipient w id caller >>= λ x. or_respond w x >>= k) env c
    unfolding ◌>>=◌ load_pending_request_as_recipient query check_recipient or_respond
    Ends-recipient id caller k stop go = elim (Bool-cases (env.fails c.step)) [
      | inl e ↦ record { at = rw e (stop internal) }
      | inr e ↦ (elim (Option-cases (request_by_id id (c.uncommitted (env.others c.step c.db)))) [
        | inl missing ↦ record { at = rw (e, missing) (stop not_found) }
        | inr (q, found) ↦ (elim (Bool-cases (q.recipient_user_id == caller)) [
          | inr other ↦ record { at = rw (e, found, other) (stop (forbidden "not_recipient")) }
          | inl own ↦ (elim (Bool-cases (is_pending q.status)) [
            | inr over ↦ record { at = rw (e, found, own, over) (stop not_found) }
            | inl live ↦ record {
              at = rw (e, found, own, live) (go q found (eq_of_== _ _ own) live).at;
            }
          ])
        ])
      ])
    ]

    pub Ends-requester :
        (id caller : ℕ) (k : Unit → Reply w (Response w.Value))
        → ((e : LoadPendingRequestError) → P (into_response w e) (app_of (advance env c)))
        → ((q : ContactRequest)
            → request_by_id id (c.uncommitted (env.others c.step c.db)) ≡ some q
            → q.requester_user_id ≡ caller
            → is_pending q.status ≡ true
            → Ends P (k tt) env (advance env c))
        → Ends P (load_pending_request_as_requester w id caller >>= λ x. or_respond w x >>= k) env c
    unfolding ◌>>=◌ load_pending_request_as_requester query check_requester or_respond
    Ends-requester id caller k stop go = elim (Bool-cases (env.fails c.step)) [
      | inl e ↦ record { at = rw e (stop internal) }
      | inr e ↦ (elim (Option-cases (request_by_id id (c.uncommitted (env.others c.step c.db)))) [
        | inl missing ↦ record { at = rw (e, missing) (stop not_found) }
        | inr (q, found) ↦ (elim (Bool-cases (q.requester_user_id == caller)) [
          | inr other ↦ record { at = rw (e, found, other) (stop (forbidden "not_requester")) }
          | inl own ↦ (elim (Bool-cases (is_pending q.status)) [
            | inr over ↦ record { at = rw (e, found, own, over) (stop not_found) }
            | inl live ↦ record {
              at = rw (e, found, own, live) (go q found (eq_of_== _ _ own) live).at;
            }
          ])
        ])
      ])
    ]

    pub Ends-push_frame :
        (u : ℕ) (frame : w.Value) (k : Unit → Reply w (Response w.Value))
        → Ends P
            (k tt)
            env
            (record c { hub = push_to (registry_get u c.hub) (text (w.to_text frame)) c.hub })
        → Ends P (push_frame w u frame >>= k) env c
    unfolding ◌>>=◌ push_frame
    Ends-push_frame u frame k h = record { at = h.at }
