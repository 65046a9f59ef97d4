-- ===== src/PushTokens/Register.antt =====
-- What a registration leaves behind (apps/api/src/push_tokens.rs).
use epistl.Prelude.{
  ℕ, String, ◌≡◌, refl, sym, ap, subst, ◌∙◌, str_eq_iff, ◌≤◌, ◌+◌, inl, inr, ◌==◌, ◌&&◌, Bool, true,
  false, not, Option, none, some, get_or, List, [], ◌∷◌, ◌++◌, find, map, retain, count,
  count-append, Option-cases, arith, if◌then◌else◌,
}
use epistl.Wire.{Wire}
use epistl.Http.{json, succeeded}
use epistl.Db.{PushToken, Tables}
use epistl.Db.Session.{Env, App, Write, apply, run, drift}
use epistl.Db.Session.Rules.{Ends-return_if, Ends-autocommit_or, Ends-pure, run-Ends}
use epistl.Db.Session.Atomic.{Atomic, unchanged, unseen, done, eq-apply, Atomic-succeeded}
use epistl.Contacts.Sql.{has_user}
use epistl.Contacts.Handlers.{Caller}
use epistl.PushTokens.{is_token, reassigned, write_token, upsert_token, register_push_token}

-- rows of the token, and those of them that are the user's
abbrev pub rows_of : String → Tables → ℕ
rows_of token t = count (is_token token) t.push_tokens

abbrev pub own_rows_of : ℕ → String → Tables → ℕ
own_rows_of user token t = count (λ r. (r.user_id == user) && is_token token r) t.push_tokens

module _ (user : ℕ) (token : String) where
  count-reassigned :
      (s : String) (rs : List PushToken)
      → count (is_token s) (map (reassigned user token) rs) ≡ count (is_token s) rs
  count-reassigned s [] = refl
  count-reassigned s (r ∷ rs) = ground (arith, count-reassigned s rs)

  own-reassigned :
      (rs : List PushToken)
      → count (λ r. (r.user_id == user) && is_token token r) (map (reassigned user token) rs)
        ≡ count (is_token token) rs
  own-reassigned [] = refl
  own-reassigned (r ∷ rs) = ground (arith, own-reassigned rs)

  none_of : (rs : List PushToken) → find (is_token token) rs ≡ none → count (is_token token) rs ≡ 0
  none_of [] h = refl
  none_of (r ∷ rs) h = ground (arith, none_of rs)

  some_of :
      (rs : List PushToken) (r : PushToken)
      → find (is_token token) rs ≡ some r
      → 1 ≤ count (is_token token) rs
  some_of [] r h = cc
  some_of (x ∷ rs) r h = ground (arith, some_of rs r)

  own_le :
      (rs : List PushToken)
      → count (λ r. (r.user_id == user) && is_token token r) rs ≤ count (is_token token) rs
  own_le [] = omega arith
  own_le (r ∷ rs) = ground (arith, own_le rs)

  two_owners :
      (v : ℕ) (rs : List PushToken)
      → (user == v) ≡ false
      → count (λ r. (r.user_id == user) && is_token token r) rs
          + count (λ r. (r.user_id == v) && is_token token r) rs
        ≤ count (is_token token) rs
  two_owners v [] h = omega arith
  two_owners v (r ∷ rs) h = ground (arith, two_owners v rs)

  others-reassigned :
      (rs : List PushToken)
      → retain (λ r. not (is_token token r)) (map (reassigned user token) rs)
        ≡ retain (λ r. not (is_token token r)) rs
  others-reassigned [] = refl
  others-reassigned (r ∷ rs) = ground (arith, others-reassigned rs)

  appended :
      (rs : List PushToken) (r : PushToken)
      → is_token token r ≡ true
      → retain (λ r. not (is_token token r)) (rs ++ r ∷ [])
        ≡ retain (λ r. not (is_token token r)) rs
  appended [] r h = ground arith
  appended (x ∷ rs) r h = ground (arith, appended rs r)

  counted :
      (p : PushToken → Bool) (rs : List PushToken) (r : PushToken)
      → p r ≡ true
      → count p (rs ++ r ∷ []) ≡ count p rs + 1
  counted p rs r h = count-append p rs (r ∷ []) ∙ ap (λ n. count p rs + n) (rw h refl)

  -- The token is registered once, for the user and nobody else, and other tokens are as before.
  abbrev pub IsRegistered : Tables → Tables → Type 0
  IsRegistered t out =
      (rows_of token out ≡ 1)
      × (own_rows_of user token out ≡ 1)
      × ((v : ℕ) → (user == v) ≡ false → own_rows_of v token out ≡ 0)
      × (retain (λ r. not (is_token token r)) out.push_tokens
          ≡ retain (λ r. not (is_token token r)) t.push_tokens)

  from_counts :
      (rs : List PushToken) (v : ℕ)
      → count (is_token token) rs ≡ 1
      → count (λ r. (r.user_id == user) && is_token token r) rs ≡ 1
      → (user == v) ≡ false
      → count (λ r. (r.user_id == v) && is_token token r) rs ≡ 0
  from_counts rs v one own h = omega (arith, two_owners v rs h)

  insert_lem :
      (t : Tables) (row : PushToken)
      → find (is_token token) t.push_tokens ≡ none
      → row.user_id ≡ user
      → is_token token row ≡ true
      → IsRegistered t (record t { push_tokens = t.push_tokens ++ row ∷ [] })
  insert_lem t row e u h =
      let zero_rows = none_of t.push_tokens e in
      let zero_own = own_le t.push_tokens in
      let one : count (is_token token) (t.push_tokens ++ row ∷ []) ≡ 1 =
        omega (arith, counted (is_token token) t.push_tokens row h) in
      let own : count (λ r. (r.user_id == user) && is_token token r) (t.push_tokens ++ row ∷ [])
          ≡ 1 =
        omega (
          arith,
          counted (λ r. (r.user_id == user) && is_token token r) t.push_tokens row
              (rw (u, h) (ground arith)),
        ) in
      (one, own, λ v ne. from_counts _ v one own ne, appended t.push_tokens row h)

  reassign_lem :
      (t : Tables) (r : PushToken)
      → find (is_token token) t.push_tokens ≡ some r
      → rows_of token t ≤ 1
      → IsRegistered t (record t { push_tokens = map (reassigned user token) t.push_tokens })
  reassign_lem t r e h =
      let one : count (is_token token) (map (reassigned user token) t.push_tokens) ≡ 1 =
        omega (arith, some_of t.push_tokens r e, count-reassigned token t.push_tokens) in
      let own : count (λ r. (r.user_id == user) && is_token token r)
            (map (reassigned user token) t.push_tokens)
          ≡ 1 =
        omega (arith, some_of t.push_tokens r e, own-reassigned t.push_tokens) in
      (one, own, λ v ne. from_counts _ v one own ne, others-reassigned t.push_tokens)

  write_lem :
      (id now : ℕ) (o : Option PushToken) (t : Tables)
      → find (is_token token) t.push_tokens ≡ o
      → rows_of token t ≤ 1
      → IsRegistered t (write_token user token id now o t).1
  unfolding write_token
  write_lem id now none t e h = insert_lem t _ e refl ((str_eq_iff token token).1 refl)
  write_lem id now (some r) t e h = reassign_lem t r e h

  upsert_token_lem :
      (id now : ℕ) (t u : Tables) {at : ℕ × ℕ}
      → rows_of token t ≤ 1
      → upsert_token user token id now t ≡ some (at, u)
      → IsRegistered t u
  unfolding upsert_token
  upsert_token_lem id now t u h e =
      subst (IsRegistered t)
        (written (write_token user token id now (find (is_token token) t.push_tokens) t) e)
        (write_lem id now (find (is_token token) t.push_tokens) t refl h)
    where
      written :
          {at : ℕ × ℕ} (x : (ℕ × ℕ) × Tables)
          → (if has_user user t then some x else none) ≡ some (at, u)
          → x.1 ≡ u
      written x e = ground arith

-- The reply's id and time are those of the row that the write has left.
abbrev pub IsStored : Caller → String → ℕ → ℕ → Tables → ℕ × ℕ → Type 0
IsStored user token id now t q = (u : Tables) × (upsert_token user.id token id now t ≡ some (q, u))

apply-refused : {A : Type 0} (write : Write A) (t : Tables) → write t ≡ none → apply write t ≡ t
apply-refused write t e = rw (e, apply) refl

module _ (w : Wire) (user : Caller) (payload : Option String) (env : Env) (a : App w.Text) where
  -- A registration makes its write and replies with the row's id, or changes nothing.
  pub register_push_token-Atomic :
      let (r, b) = run (register_push_token w user payload) env a in
      Atomic w env a
        (IsStored user (get_or payload "") (env.uuid 0 0) (env.now 0) (drift env 1 a.db))
        1
        (λ q. apply (upsert_token user.id (get_or payload "") (env.uuid 0 0) (env.now 0)))
        (λ q. a.hub)
        (λ q. json w 200 (
          w.obj (
            ("id", w.str (w.uuid_text q.0))
            ∷ ("user_id", w.str (w.uuid_text user.id))
            ∷ ("created_at", w.str (w.timestamp q.1))
            ∷ [])))
        r
        b
  unfolding register_push_token
  register_push_token-Atomic =
      let write = upsert_token user.id (get_or payload "") (env.uuid 0 0) (env.now 0) in
      let db = drift env 1 a.db in
      run-Ends (Atomic w env a _ 1 _ _ _) (register_push_token w user payload) env a (
        Ends-return_if _ _ _ (λ e. unchanged 0 refl refl refl)
          λ given.
            Ends-autocommit_or _ _ _ (unchanged 1 refl refl refl)
              (elim (Option-cases (write db)) [
                | inl e ↦ unchanged 1 (apply-refused write db e) refl refl
                | inr (x, e) ↦ unseen x.0 (x.1, e) refl refl refl
              ])
              (λ q t wrote. Ends-pure (done q (t, wrote) (eq-apply write db t wrote) refl refl)))

  -- After a successful registration the token is registered once, for the caller and nobody else, and
  -- the rows of other tokens are what they were, if the token had at most one row before.
  pub register_push_token_moves :
      succeeded (run (register_push_token w user payload) env a).0 ≡ true
      → rows_of (get_or payload "") (drift env 1 a.db) ≤ 1
      → IsRegistered user.id
          (get_or payload "")
          (drift env 1 a.db)
          (run (register_push_token w user payload) env a).1.db
  register_push_token_moves h unique =
      let (q, (u, wrote), db, hub, reply) = Atomic-succeeded register_push_token-Atomic h in
      subst (IsRegistered user.id (get_or payload "") (drift env 1 a.db))
        (eq-apply (upsert_token user.id (get_or payload "") (env.uuid 0 0) (env.now 0))
            (drift env 1 a.db) u wrote
          ∙ sym db)
        (upsert_token_lem user.id (get_or payload "") (env.uuid 0 0) (env.now 0) (drift env 1 a.db)
          u unique wrote)
