-- ===== src/PushTokens.antt =====
-- apps/api/src/push_tokens.rs: the push tokens of devices.
pub mod Register
use epistl.Prelude.{
  ℕ, String, str_eq, Bool, not, Option, none, some, get_or, [], ◌∷◌, ◌++◌, find, map, if◌then◌else◌,
}
use epistl.Wire.{Wire}
use epistl.Http.{Response, json, internal_error, bad_request}
use epistl.Db.{PushToken, Tables}
use epistl.Db.Session.{Write, ◌>>=◌, ◌>>◌, pure, autocommit, or_return, return_if}
use epistl.Contacts.Sql.{has_user}
use epistl.Contacts.Handlers.{Caller, Reply}

abbrev pub is_token : String → PushToken → Bool
is_token token r = str_eq r.token token

-- the row with its owner set
abbrev pub reassigned : ℕ → String → PushToken → PushToken
reassigned user token r = if is_token token r then record r { user_id = user } else r

write_token : ℕ → String → ℕ → ℕ → Option PushToken → Tables → (ℕ × ℕ) × Tables
write_token user token id now (some r) t =
    ((r.id, r.created_at), record t { push_tokens = map (reassigned user token) t.push_tokens })
write_token user token id now none t =
    let row : PushToken = record { id = id; user_id = user; token = token; created_at = now } in
    ((id, now), record t { push_tokens = t.push_tokens ++ row ∷ [] })

-- INSERT INTO push_tokens … ON CONFLICT (token) DO UPDATE SET user_id = … RETURNING id, created_at
unfoldable pub upsert_token : ℕ → String → ℕ → ℕ → Write (ℕ × ℕ)
unfolding write_token
upsert_token user token id now t =
    if has_user user t
    then some (write_token user token id now (find (is_token token) t.push_tokens) t)
    else none

module _ (w : Wire) where
  open w use {Value, str, obj, uuid_text, timestamp}

  unfoldable pub register_push_token : Caller → Option String → Reply w (Response Value)
  register_push_token user payload = do
    let token = get_or payload ""
    return_if (str_eq token "") (bad_request w "invalid_input")
    upserted ← autocommit (λ uuid. upsert_token user.id token (uuid 0))
    (id, created_at) ← or_return upserted (internal_error w)
    pure (
        json w 200 (
          obj (
            ("id", str (uuid_text id))
            ∷ ("user_id", str (uuid_text user.id))
            ∷ ("created_at", str (timestamp created_at))
            ∷ [])))
