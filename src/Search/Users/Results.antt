-- ===== src/Search/Users/Results.antt =====
-- What the search of apps/api/src/search.rs returns.
use epistl.Prelude.{
  ℕ, ◌≤◌, ◌<◌, ◌≡◌, ◌⊎◌, refl, inl, inr, String, Bool, true, false, Option, get_or, [], ◌∷◌, map,
  length, all, count, retain, sort_with, all-retain, all-take, length-take-le, take_all,
  all-sort_with, count-sort_with, length-sort_with, arith, codes, Bool-cases,
}
use epistl.Wire.{Wire}
use epistl.Http.{Response, json, error, internal_error}
use epistl.Db.{User, Tables}
use epistl.Db.Session.{Env, App, run, drift}
use epistl.Db.Session.Rules.{Ends-pure, Ends-return_if, Ends-query_or, run-Ends}
use epistl.Contacts.Handlers.{Caller}
use epistl.Search.RateLimiter.{Window, try_acquire}
use epistl.Search.Users.{
  min_query_len, result_limit, is_match, matches, user_row, search_users, rate_limit,
}

module _ (w : Wire) (q : String) (caller : ℕ) (t : Tables) where
  -- A search finds at most 20 users, each of whom matches the query and is not the caller.
  pub matches_sound :
      (length (matches w q caller t) ≤ result_limit)
      × (all (is_match w q caller) (matches w q caller t) ≡ true)
  unfolding matches
  matches_sound =
      let found = retain (is_match w q caller) t.users in
      let order = λ (x y : User). w.collate x.email y.email in
      (
        length-take-le result_limit (sort_with order found),
        all-take _ result_limit (sort_with order found)
            (all-sort_with order _ found (all-retain (is_match w q caller) t.users)),
      )

  -- While the matching users number at most 20, a search finds all of them: of any kind of row as
  -- many as the table has among the matching ones.
  pub matches_complete :
      (p : User → Bool)
      → length (retain (is_match w q caller) t.users) ≤ result_limit
      → count p (matches w q caller t) ≡ count p (retain (is_match w q caller) t.users)
  unfolding matches
  matches_complete p h =
      let found = retain (is_match w q caller) t.users in
      let order = λ (x y : User). w.collate x.email y.email in
      rw
        (take_all result_limit (sort_with order found)
          (omega (arith, length-sort_with order found)))
        (count-sort_with order p found)

module _ (w : Wire) (user : Caller) (params : Option String) (env : Env) (a : App w.Text) where
  -- How a search ends; the tables are never changed.
  pub data Searched (r : Response w.Value) (b : App w.Text) : Type 0 where
    too_short :
        length (codes (get_or params "")) < min_query_len
        → b ≡ a
        → r ≡ json w 200 (w.obj (("users", w.arr []) ∷ []))
        → Searched r b
    failed : b.db ≡ drift env 1 a.db → r ≡ internal_error w → Searched r b
    listed :
        min_query_len ≤ length (codes (get_or params ""))
        → b.db ≡ drift env 1 a.db
        → r
          ≡ json w 200 (
              w.obj (
                (
                  "users",
                  w.arr
                      (map (user_row w) (matches w (get_or params "") user.id (drift env 1 a.db))),
                )
                ∷ []))
        → Searched r b

  -- A query below the least length gives an empty list and reads nothing; any other gives the
  -- matches in the tables that it finds, or an internal error; the tables are left as they are.
  pub search_users-Searched : let (r, b) = run (search_users w user params) env a in Searched r b
  unfolding search_users
  search_users-Searched = run-Ends Searched (search_users w user params) env a (
      Ends-return_if _ _ _ (λ short. too_short (ground arith) refl refl)
        (λ enough.
          Ends-query_or _ _ _ (failed refl refl) (Ends-pure (listed (ground arith) refl refl))))

-- Behind the rate limiter a handler runs exactly if the counter lets the request pass; otherwise
-- the reply is 429 and nothing but the counter may have changed.
pub rate_limit_lem :
    (w : Wire) (now : ℕ) (next : Env → App w.Text → Response w.Value × App w.Text) (env : Env)
    (window : Window) (a : App w.Text)
    → let (r, window', b) = rate_limit w now next env (window, a) in
      (window' ≡ (try_acquire now window).1)
      × (((try_acquire now window).0 ≡ true) × (r ≡ (next env a).0) × (b ≡ (next env a).1)
          ⊎ ((try_acquire now window).0 ≡ false) × (r ≡ error w 429 "rate_limited") × (b ≡ a))
unfolding rate_limit
rate_limit_lem w now next env window a = elim (Bool-cases (try_acquire now window).0) [
  | inl ok ↦ (rw ok refl, inl (ok, rw ok refl, rw ok refl))
  | inr no_more ↦ (rw no_more refl, inr (no_more, rw no_more refl, rw no_more refl))
]
