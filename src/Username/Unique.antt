-- ===== src/Username/Unique.antt =====
-- Usernames stay unique (apps/api/src/username.rs).
use epistl.Prelude.{
  ℕ, String, str_eq, str_eq_iff, ◌≡◌, refl, sym, ap, subst, ◌∙◌, ◌≤◌, inl, inr, ◌==◌, ◌&&◌, Bool,
  true, false, not, Option, some, get_or, List, [], ◌∷◌, any, map, count, Bool-cases, arith,
  if◌then◌else◌,
}
use epistl.Wire.{Wire}
use epistl.Http.{Response, succeeded}
use epistl.Db.{User, Tables}
use epistl.Db.Session.{Env, App, apply, run, drift}
use epistl.Db.Session.Rules.{Ends-return_if, Ends-autocommit_or, Ends-pure, run-Ends}
use epistl.Db.Session.Atomic.{eq-apply}
use epistl.Contacts.Handlers.{Caller}
use epistl.Username.{
  Updated, updated, unique_violation, row_not_found, renamed, update_username, username_reply,
  change_username,
}

abbrev pub named : String → Tables → ℕ
named n t = count (λ (x : User). str_eq x.username n) t.users

-- The primary key and `users_username_key`.
pub record IsUnique (t : Tables) : Type 0 where
  pub ids : (u : ℕ) → count (λ (x : User). x.id == u) t.users ≤ 1
  pub names : (n : String) → named n t ≤ 1

module _ (u : ℕ) (name : String) (now : ℕ) where
  ids-renamed :
      (v : ℕ) (xs : List User)
      → count (λ (x : User). x.id == v) (map (renamed u name now) xs)
        ≡ count (λ (x : User). x.id == v) xs
  ids-renamed v [] = refl
  ids-renamed v (x ∷ xs) = ground (arith, ids-renamed v xs)

  names-same :
      (xs : List User)
      → any (λ (x : User). not (x.id == u) && str_eq x.username name) xs ≡ false
      → count (λ (x : User). str_eq x.username name) (map (renamed u name now) xs)
        ≤ count (λ (x : User). x.id == u) xs
  names-same [] h = omega arith
  names-same (x ∷ xs) h = ground (arith, names-same xs)

  names-other :
      (n : String) (xs : List User)
      → str_eq name n ≡ false
      → count (λ (x : User). str_eq x.username n) (map (renamed u name now) xs)
        ≤ count (λ (x : User). str_eq x.username n) xs
  names-other n [] h = omega arith
  names-other n (x ∷ xs) h = ground (arith, names-other n xs)

  renamed-IsUnique :
      (t : Tables)
      → any (λ (x : User). not (x.id == u) && str_eq x.username name) t.users ≡ false
      → IsUnique t
      → IsUnique (record t { users = map (renamed u name now) t.users })
  renamed-IsUnique t h unique = record {
    ids = λ v. omega (arith, ids-renamed v t.users, unique.ids v);
    names = λ n. elim (Bool-cases (str_eq name n)) [
      | inl e ↦
          subst
            (λ m. count (λ (x : User). str_eq x.username m) (map (renamed u name now) t.users) ≤ 1)
            ((str_eq_iff name n).0 e) (omega (arith, names-same t.users h, unique.ids u))
      | inr e ↦ omega (arith, names-other n t.users e, unique.names n)
    ];
  }

  update_username-IsUnique :
      (t : Tables) → IsUnique t → IsUnique (apply (update_username u name now) t)
  unfolding update_username
  update_username-IsUnique t unique = elim (Bool-cases (any (λ (x : User). x.id == u) t.users)) [
    | inr e ↦ rw (e, apply) unique
    | inl e ↦
        (elim (Bool-cases (any (λ (x : User). not (x.id == u) && str_eq x.username name) t.users)) [
          | inl taken ↦ rw (e, taken, apply) unique
          | inr free ↦ rw (e, free, apply) (renamed-IsUnique t free unique)
        ])
  ]

  renamed-there :
      (xs : List User)
      → any (λ (x : User). x.id == u) xs ≡ true
      → any (λ (x : User). x.id == u && str_eq x.username name) (map (renamed u name now) xs) ≡ true
  renamed-there [] h = cc
  renamed-there (x ∷ xs) h = ground (arith, renamed-there xs, (str_eq_iff name name).1 refl)

module _ (w : Wire) (validate : String → Bool) (normalize : String → String) where
  module _ (t out y : Tables) (name : String) (x : Updated) where
    abbrev choice : Bool → Bool → Option (Updated × Tables)
    choice b c =
        if not b
        then some (row_not_found, t)
        else if c
        then some (unique_violation, t)
        else some (updated name, y)

    reply-updated :
        (b c : Bool)
        → choice b c ≡ some (x, out)
        → succeeded (username_reply w validate normalize x) ≡ true
        → (b ≡ true) × (y ≡ out)
    unfolding username_reply
    reply-updated true false e s = (refl, cc e)
    reply-updated true true e s =
        let same : unique_violation ≡ x = cc e in
        cc (ap (λ z. succeeded (username_reply w validate normalize z)) same, s)
    reply-updated false c e s =
        let same : row_not_found ≡ x = cc e in
        cc (ap (λ z. succeeded (username_reply w validate normalize z)) same, s)

  update_username-named :
      (u : ℕ) (name : String) (now : ℕ) (t out : Tables) (x : Updated)
      → update_username u name now t ≡ some (x, out)
      → succeeded (username_reply w validate normalize x) ≡ true
      → any (λ (x : User). x.id == u && str_eq x.username name) out.users ≡ true
  unfolding update_username
  update_username-named u name now t out x e s =
      let y : Tables = record t { users = map (renamed u name now) t.users } in
      let (there, same) = reply-updated t out y name x _ _ e s in
      ap (λ (z : Tables). any (λ (x : User). x.id == u && str_eq x.username name) z.users)
        (sym same)
      ∙ renamed-there u name now t.users there

  module _ (user : Caller) (payload : Option String) (env : Env) (a : App w.Text)
      (unique : (k : ℕ) → IsUnique (drift env k a.db)) where
    abbrev Kept : Response w.Value → App w.Text → Type 0
    Kept r b =
        IsUnique b.db
        × (succeeded r ≡ true
            → (validate (get_or payload "") ≡ true)
              × (any
                    (λ (x : User).
                      x.id == user.id && str_eq x.username (normalize (get_or payload "")))
                    b.db.users
                  ≡ true))

    -- Ids and usernames stay unique whatever the outcome, if the other sessions keep them so; after a
    -- success the username is valid and the caller's row has it, normalised.
    pub change_username-IsUnique :
        let (r, b) = run (change_username w validate normalize user payload) env a in
        IsUnique b.db
        × (succeeded r ≡ true
            → (validate (get_or payload "") ≡ true)
              × (any
                    (λ (x : User).
                      x.id == user.id && str_eq x.username (normalize (get_or payload "")))
                    b.db.users
                  ≡ true))
    unfolding change_username
    change_username-IsUnique =
        let name = normalize (get_or payload "") in
        let write = update_username user.id name (env.now 0) in
        let db = drift env 1 a.db in
        let written = update_username-IsUnique user.id name (env.now 0) db (unique 1) in
        run-Ends Kept (change_username w validate normalize user payload) env a (
          Ends-return_if _ _ _ (λ e. (unique 0, λ s. cc))
            λ valid.
              Ends-autocommit_or _ _ _ (unique 1, λ s. cc) (written, λ s. cc)
                (λ x t wrote. Ends-pure (
                  subst IsUnique (sym (eq-apply write db t wrote)) written,
                  λ s.
                      (ground arith, update_username-named user.id name (env.now 0) db t x wrote s),
                )))
