-- ===== src/Username.antt =====
-- apps/api/src/username.rs: the change of the caller's username. Validation and normalisation are
-- those of the better-auth crate, and are given.
pub mod Unique
use epistl.Prelude.{
  ℕ, String, ◌==◌, ◌&&◌, str_eq, Bool, not, Option, some, get_or, [], ◌∷◌, any, map, if◌then◌else◌,
}
use epistl.Wire.{Wire}
use epistl.Http.{Response, json, error, internal_error, bad_request}
use epistl.Db.{User, Tables}
use epistl.Db.Session.{Write, ◌>>=◌, ◌>>◌, pure, autocommit, or_return, return_if}
use epistl.Contacts.Handlers.{Caller, Reply}

-- What the statement reports, other errors aside: the new name, a violation of
-- `users_username_key`, or no such row.
pub data Updated : Type 0 where
  updated : String → Updated
  unique_violation row_not_found : Updated

abbrev pub renamed : ℕ → String → ℕ → User → User
renamed u name now x = if x.id == u then record x { username = name; updated_at = now } else x

-- UPDATE users SET username = $1, updated_at = now() WHERE id = $2 RETURNING username
unfoldable pub update_username : ℕ → String → ℕ → Write Updated
update_username u name now t =
    if not (any (λ (x : User). x.id == u) t.users)
    then some (row_not_found, t)
    else if any (λ (x : User). not (x.id == u) && str_eq x.username name) t.users
    then some (unique_violation, t)
    else some (updated name, record t { users = map (renamed u name now) t.users })

module _ (w : Wire) (validate_username : String → Bool) (normalize_username : String → String) where
  open w use {Value, str, obj}

  unfoldable pub username_reply : Updated → Response Value
  username_reply (updated name) = json w 200 (obj (("username", str name) ∷ []))
  username_reply unique_violation = error w 409 "username already taken"
  username_reply row_not_found = internal_error w

  unfoldable pub change_username : Caller → Option String → Reply w (Response Value)
  unfolding username_reply
  change_username user payload = do
    let username = get_or payload ""
    return_if (not (validate_username username)) (bad_request w "invalid_username")
    result ← autocommit (λ _. update_username user.id (normalize_username username))
    done ← or_return result (internal_error w)
    pure (username_reply done)
