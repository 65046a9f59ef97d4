-- ===== src/Contacts/Remove.antt =====
-- `remove_contact` (apps/api/src/contacts.rs): removal is mutual.
use epistl.Prelude.{ℕ, ◌≡◌, ◌≢◌, refl, some, count, arith}
use epistl.Wire.{Wire}
use epistl.Registry.{text, get as registry_get}
use epistl.Http.{no_content}
use epistl.Db.{Tables}
use epistl.Db.Session.{Env, App, apply, run, drift}
use epistl.Db.Session.Rules.{
  Ends-pure, Ends-return_if, Ends-begin_or, Ends-execute_or, Ends-commit_or, run-Ends,
}
use epistl.Db.Session.Atomic.{Atomic, unchanged, unseen, done}
use epistl.Contacts.Sql.{is_pair, delete_contact}
use epistl.Contacts.Handlers.{Caller, push_to, removed_frame, remove_contact}
use epistl.Contacts.Rules.{Ends-push_frame}

-- The two deletions.
abbrev pub unfriend : ℕ → ℕ → Tables → Tables
unfriend a b t = apply (delete_contact b a) (apply (delete_contact a b) t)

delete_contact-count :
    (a b : ℕ) (t u : Tables) {rows : ℕ}
    → delete_contact a b t ≡ some (rows, u)
    → rows ≡ count (is_pair a b) t.contacts
unfolding delete_contact
delete_contact-count a b t u h = ground arith

module _ (w : Wire) (user : Caller) (contact : ℕ) (env : Env) (a : App w.Text) where
  pub remove-Atomic :
      let (r, b) = run (remove_contact w user contact) env a in
      Atomic w env a {Q = Unit}
        (λ _. count (is_pair user.id contact) (drift env 2 a.db).contacts ≢ 0)
        4
        (λ _. unfriend user.id contact)
        (λ _. push_to (registry_get contact a.hub) (text (w.to_text (removed_frame w user))) a.hub)
        (λ _. no_content w)
        r
        b
  unfolding remove_contact
  remove-Atomic = run-Ends (Atomic w env a _ 4 _ _ _) (remove_contact w user contact) env a (
      Ends-begin_or _ _ (unchanged 1 refl refl refl) (
        Ends-execute_or _ _ _ (unchanged 2 refl refl refl) (λ rows t wrote.
          Ends-return_if _ _ _ (λ _. unchanged 2 refl refl refl)
            (λ some_row.
              let had : count (is_pair user.id contact) (drift env 2 a.db).contacts ≢ 0 =
                ground (arith, delete_contact-count user.id contact (drift env 2 a.db) t wrote) in
              Ends-execute_or _ _ _ (unchanged 3 refl refl refl) (λ _ _ _.
                Ends-commit_or _ _ (unchanged 4 refl refl refl) (unseen tt had refl refl refl)
                  (Ends-push_frame w _ _ _ (Ends-pure (done tt had refl refl refl))))))))
