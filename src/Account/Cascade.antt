-- ===== src/Account/Cascade.antt =====
-- A deleted account leaves no reference behind (apps/api/src/account.rs).
use epistl.Prelude.{
  ℕ, ◌≡◌, refl, ap, ◌∙◌, inl, inr, ◌==◌, ◌||◌, Bool, true, false, not, List, [], ◌∷◌, any, retain,
  Bool-cases, arith, eq_of_==,
}
use epistl.Wire.{Wire}
use epistl.Http.{no_content, succeeded}
use epistl.Db.{User, SessionRow, AccountRow, Contact, ContactRequest, UserKeys, PushToken, Tables}
use epistl.Db.Session.{Env, App, apply, run, drift}
use epistl.Db.Session.Rules.{Ends-autocommit_or, Ends-pure, run-Ends}
use epistl.Db.Session.Atomic.{Atomic, unchanged, unseen, done, eq-apply, Atomic-succeeded}
use epistl.Contacts.Sql.{has_user}
use epistl.Contacts.Handlers.{Caller}
use epistl.Account.{delete_user, delete_account}

-- Some row of some table names the user.
abbrev pub is_named : ℕ → Tables → Bool
is_named u t =
    any (λ (x : User). x.id == u) t.users
    || any (λ (x : SessionRow). x.user_id == u) t.sessions
    || any (λ (x : AccountRow). x.user_id == u) t.accounts
    || any (λ (x : Contact). x.owner_user_id == u || x.contact_user_id == u) t.contacts
    || any (λ (x : ContactRequest). x.requester_user_id == u || x.recipient_user_id == u)
        t.contact_requests
    || any (λ (x : UserKeys). x.user_id == u) t.user_keys
    || any (λ (x : PushToken). x.user_id == u) t.push_tokens

gone : {A : Type 0} (p : A → Bool) (xs : List A) → any p (retain (λ x. not (p x)) xs) ≡ false
gone p [] = refl
gone p (x ∷ xs) = ground (arith, gone p xs)

any_kept :
    {A : Type 0} (p q : A → Bool) (xs : List A)
    → ((x : A) → p x ≡ true → q x ≡ false)
    → any p (retain (λ x. not (q x)) xs) ≡ any p xs
any_kept p q [] h = refl
any_kept p q (x ∷ xs) h = ground (arith, any_kept p q xs h, h x)

any_fewer :
    {A : Type 0} (p q : A → Bool) (xs : List A) → any p (retain q xs) ≡ true → any p xs ≡ true
any_fewer p q [] h = h
any_fewer p q (x ∷ xs) h = ground (arith, any_fewer p q xs)

or_mono :
    (a b c d : Bool)
    → (a ≡ true → c ≡ true)
    → (b ≡ true → d ≡ true)
    → (a || b) ≡ true
    → (c || d) ≡ true
or_mono a b c d f g h = ground arith

-- Every user that a row names has a row.
abbrev pub IsReferential : Tables → Type 0
IsReferential t = (v : ℕ) → is_named v t ≡ true → has_user v t ≡ true

module _ (u : ℕ) (t : Tables) where
  delete_user-named : is_named u (apply (delete_user u) t) ≡ false
  unfolding delete_user
  delete_user-named =
      rw
        (
          gone (λ (x : User). x.id == u) t.users,
          gone (λ (x : SessionRow). x.user_id == u) t.sessions,
          gone (λ (x : AccountRow). x.user_id == u) t.accounts,
          gone (λ (x : Contact). x.owner_user_id == u || x.contact_user_id == u) t.contacts,
          gone (λ (x : ContactRequest). x.requester_user_id == u || x.recipient_user_id == u)
              t.contact_requests,
          gone (λ (x : UserKeys). x.user_id == u) t.user_keys,
          gone (λ (x : PushToken). x.user_id == u) t.push_tokens,
        )
        refl

  still-named : (v : ℕ) → is_named v (apply (delete_user u) t) ≡ true → is_named v t ≡ true
  unfolding delete_user
  still-named v =
      or_mono _ _ _ _
        (or_mono _ _ _ _
          (or_mono _ _ _ _
            (or_mono _ _ _ _
              (or_mono _ _ _ _ (or_mono _ _ _ _ (any_fewer _ _ t.users) (any_fewer _ _ t.sessions))
                (any_fewer _ _ t.accounts))
              (any_fewer _ _ t.contacts))
            (any_fewer _ _ t.contact_requests))
          (any_fewer _ _ t.user_keys))
        (any_fewer _ _ t.push_tokens)

  delete_user-other :
      (v : ℕ) → (v == u) ≡ false → has_user v (apply (delete_user u) t) ≡ has_user v t
  unfolding delete_user has_user
  delete_user-other v ne =
      any_kept (λ (x : User). x.id == v) (λ (x : User). x.id == u) t.users (λ x h. ground arith)

  delete_user-IsReferential : IsReferential t → IsReferential (apply (delete_user u) t)
  delete_user-IsReferential sound v named = elim (Bool-cases (v == u)) [
    | inl e ↦
        cc (delete_user-named, ap (λ k. is_named k (apply (delete_user u) t)) (eq_of_== v u e))
    | inr e ↦ delete_user-other v e ∙ sound v (still-named v named)
  ]

module _ (w : Wire) (user : Caller) (env : Env) (a : App w.Text) where
  -- A deletion removes the account with all that refers to it, or changes nothing.
  pub delete_account-Atomic :
      let (r, b) = run (delete_account w user) env a in
      Atomic w env a {Q = Unit}
        (λ _. Unit)
        1
        (λ _. apply (delete_user user.id))
        (λ _. a.hub)
        (λ _. no_content w)
        r
        b
  unfolding delete_account
  delete_account-Atomic = run-Ends (Atomic w env a _ 1 _ _ _) (delete_account w user) env a (
      Ends-autocommit_or _ _ _ (unchanged 1 refl refl refl) (unseen tt tt refl refl refl)
        (λ n t wrote.
          Ends-pure
            (done tt tt (eq-apply (delete_user user.id) (drift env 1 a.db) t wrote) refl refl)))

  -- After a successful deletion no row of any table names the user, every other user is still there,
  -- and every user that a row names has a row, if that held before.
  pub delete_account_forgets :
      succeeded (run (delete_account w user) env a).0 ≡ true
      → let out = (run (delete_account w user) env a).1.db in
        (is_named user.id out ≡ false)
        × ((v : ℕ) → (v == user.id) ≡ false → has_user v out ≡ has_user v (drift env 1 a.db))
        × (IsReferential (drift env 1 a.db) → IsReferential out)
  delete_account_forgets h =
      let (q, found, db, hub, reply) = Atomic-succeeded delete_account-Atomic h in
      let t = drift env 1 a.db in
      rw db (
        delete_user-named user.id t,
        delete_user-other user.id t,
        delete_user-IsReferential user.id t,
      )
