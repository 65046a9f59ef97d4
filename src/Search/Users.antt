-- ===== src/Search/Users.antt =====
-- `search_users` of apps/api/src/search.rs, behind the rate limiter.
pub mod Results
use epistl.Prelude.{
  ℕ, String, ◌==◌, ltb, Bool, ◌&&◌, ◌||◌, not, Option, get_or, List, [], ◌∷◌, map, length, retain,
  sort_with, take, codes, if◌then◌else◌,
}
use epistl.Wire.{Wire}
use epistl.Http.{Response, json, error, internal_error}
use epistl.Db.{User, Tables}
use epistl.Db.Session.{Env, App, pure, ◌>>=◌, ◌>>◌, query, or_return, return_if}
use epistl.Search.RateLimiter.{Window, try_acquire}
use epistl.Search.Like.{ilike_prefix}
use epistl.Contacts.Handlers.{Caller, Reply}

abbrev pub min_query_len : ℕ
min_query_len = 3

abbrev pub result_limit : ℕ
result_limit = 20

module _ (w : Wire) where
  open w use {Value, Text, str, arr, obj, uuid_text, fold, collate}

  unfoldable pub is_match : String → ℕ → User → Bool
  is_match q caller u =
      (ilike_prefix fold (codes q) (codes u.email)
        || ilike_prefix fold (codes q) (codes u.username))
      && not (u.id == caller)

  -- SELECT … WHERE (email ILIKE $1 || '%' OR username ILIKE $1 || '%') AND id <> $2
  -- ORDER BY email ASC LIMIT $3
  unfoldable pub matches : String → ℕ → Tables → List User
  unfolding is_match
  matches q caller t =
      take result_limit
        (sort_with (λ x y. collate x.email y.email) (retain (is_match q caller) t.users))

  unfoldable pub user_row : User → Value
  user_row u = obj (
      ("user_id", str (uuid_text u.id))
      ∷ ("email", str u.email)
      ∷ ("username", str u.username)
      ∷ [])

  unfoldable pub search_users : Caller → Option String → Reply w (Response Value)
  search_users user params = do
    let q = get_or params ""
    return_if (ltb (length (codes q)) min_query_len) (json w 200 (obj (("users", arr []) ∷ [])))
    found ← query (matches q user.id)
    rows ← or_return found (internal_error w)
    pure (json w 200 (obj (("users", arr (map user_row rows)) ∷ [])))

  -- The middleware `rate_limit` before any handler.
  unfoldable pub rate_limit :
      ℕ
      → (Env → App Text → Response Value × App Text)
      → Env
      → Window × App Text
      → Response Value × Window × App Text
  rate_limit now next env (window, a) =
      let (ok, window') = try_acquire now window in
      let (r, a') = next env a in
      if ok then (r, window', a') else (error w 429 "rate_limited", window', a)
