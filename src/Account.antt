-- ===== src/Account.antt =====
-- apps/api/src/account.rs: the deletion of the caller's own account. Every table of
-- apps/api/migrations that names a user has `REFERENCES users(id) ON DELETE CASCADE`.
pub mod Cascade
use epistl.Prelude.{ℕ, ◌==◌, ◌||◌, not, some, count, retain}
use epistl.Wire.{Wire}
use epistl.Http.{Response, no_content, internal_error}
use epistl.Db.{User, SessionRow, AccountRow, Contact, ContactRequest, UserKeys, PushToken, Tables}
use epistl.Db.Session.{Write, ◌>>=◌, ◌>>◌, pure, autocommit, or_return}
use epistl.Contacts.Handlers.{Caller, Reply}

-- DELETE FROM users WHERE id = $1, with what the foreign keys cascade to
unfoldable pub delete_user : ℕ → Write ℕ
delete_user u t = some (
  count (λ (x : User). x.id == u) t.users,
  record {
    users = retain (λ (x : User). not (x.id == u)) t.users;
    sessions = retain (λ (x : SessionRow). not (x.user_id == u)) t.sessions;
    accounts = retain (λ (x : AccountRow). not (x.user_id == u)) t.accounts;
    contacts =
        retain (λ (x : Contact). not (x.owner_user_id == u || x.contact_user_id == u)) t.contacts;
    contact_requests =
        retain (λ (x : ContactRequest). not (x.requester_user_id == u || x.recipient_user_id == u))
          t.contact_requests;
    user_keys = retain (λ (x : UserKeys). not (x.user_id == u)) t.user_keys;
    push_tokens = retain (λ (x : PushToken). not (x.user_id == u)) t.push_tokens;
  },
)

module _ (w : Wire) where
  open w use {Value}

  unfoldable pub delete_account : Caller → Reply w (Response Value)
  delete_account user = do
    result ← autocommit (λ _ _. delete_user user.id)
    or_return result (internal_error w)
    pure (no_content w)
