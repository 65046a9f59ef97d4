-- ===== src/Auth.antt =====
-- apps/api/src/auth.rs: the bearer token, and the handlers in front of the better-auth crate. That
-- crate is given: what it answers to a request, its sessions, and its users.
pub mod Bearer
pub mod Signup
pub mod Entities
use Prim.Native.Char.{code}
use epistl.Prelude.{
  ℕ, String, ◌==◌, ◌&&◌, Bool, true, false, Option, none, some, get_or, List, [], ◌∷◌, str_eq, any,
  leb, if◌then◌else◌,
}
use epistl.Wire.{Wire}
use epistl.Http.{Response, json, error}
use epistl.Db.{User, Tables}
use epistl.Db.Session.{
  Env, Conn, Outcome, value, Handler, ◌>>=◌, ◌>>◌, pure, query, or_return, return_if,
}
use epistl.Contacts.Handlers.{Caller, Reply}
use epistl.Relay.Frames.{str_field}

-- `str::strip_prefix`
unfoldable pub strip_prefix : String → String → Option String
strip_prefix String.[] s = some s
strip_prefix (String.◌∷◌ c p) String.[] = none
strip_prefix (String.◌∷◌ c p) (String.◌∷◌ d s) =
    let rest = strip_prefix p s in if code c == code d then rest else none

unfoldable pub nonempty : String → Option String
nonempty String.[] = none
nonempty (String.◌∷◌ c s) = some (String.◌∷◌ c s)

token_of : Option String → Option String
unfolding nonempty
token_of none = none
token_of (some t) = nonempty t

-- The value of the `Authorization` header, if there is one and it is text.
unfoldable pub bearer_token : Option String → Option String
unfolding strip_prefix token_of
bearer_token none = none
bearer_token (some header) = token_of (strip_prefix "Bearer " header)

-- `split('@').next()`
abbrev pub before_at : String → String
before_at String.[] = String.[]
before_at (String.◌∷◌ c s) =
    let rest = before_at s in if code c == 64 then String.[] else String.◌∷◌ c rest

unfoldable pub placeholder_name : String → String
placeholder_name email = if str_eq (before_at email) "" then "user" else before_at email

-- The part of the crate that looks tokens up: an error is `none`, no such row `some none`.
module _ (get_session : String → Option (Option ℕ))
    (get_user_by_id : ℕ → Option (Option Caller)) where
  found_user : Option (Option Caller) → Option Caller
  found_user none = none
  found_user (some u) = u

  user_of : Option (Option ℕ) → Option Caller
  unfolding found_user
  user_of none = none
  user_of (some none) = none
  user_of (some (some user_id)) = found_user (get_user_by_id user_id)

  unfoldable pub authenticate_token : String → Option Caller
  unfolding user_of
  authenticate_token token = if str_eq token "" then none else user_of (get_session token)

  authenticated : Option String → Option Caller
  unfolding authenticate_token
  authenticated none = none
  authenticated (some token) = authenticate_token token

  -- `none` is the reply 401.
  unfoldable pub from_request_parts : Option String → Option Caller
  unfolding authenticated
  from_request_parts header = authenticated (bearer_token header)

pub record SignupPayload : Type 0 where
  pub email : Option String
  pub password : Option String
  pub username : Option String

pub record LoginPayload : Type 0 where
  pub email : Option String
  pub password : Option String

-- What the crate answers to a request at a path, with what it does to the tables.
abbrev pub Dispatch : Wire → Type 0
Dispatch w = String → w.Value → Env → Conn w.Text → (ℕ × w.Text) × Conn w.Text

module _ (w : Wire) (dispatch : Dispatch w) where
  open w use {Value, Text, str, obj, get, null, from_text, to_lowercase}

  -- the status and the body
  unfoldable pub call : String → Value → Reply w (ℕ × Text)
  call path body env c = let (r, c') = dispatch path body env c in (value r, c')

  unfoldable pub json_body : Text → Value
  json_body bytes = get_or (from_text bytes) null

  session_body : Value → Value
  session_body parsed = obj (
      ("token", str (get_or (str_field w parsed "token") ""))
      ∷ ("user", get_or (get parsed "user") (obj []))
      ∷ [])

  -- SELECT EXISTS(SELECT 1 FROM users WHERE username = $1)
  unfoldable pub username_taken : String → Tables → Bool
  username_taken name t = any (λ (x : User). str_eq x.username name) t.users

  unfoldable pub signup_reply : ℕ → Text → Response Value
  unfolding session_body
  signup_reply status body =
      if status == 200
      then json w 201 (session_body (json_body body))
      else if status == 422
      then error w 409 "email already registered"
      else error w 400 "invalid input"

  unfoldable pub signup_body : SignupPayload → Value
  signup_body payload = obj (
      ("email", str (get_or payload.email ""))
      ∷ ("password", str (get_or payload.password ""))
      ∷ ("name", str (placeholder_name (get_or payload.email "")))
      ∷ ("username", str (get_or payload.username ""))
      ∷ [])

  unfoldable pub signup : SignupPayload → Reply w (Response Value)
  unfolding signup_reply
  signup payload = do
    let username = get_or payload.username ""
    return_if (str_eq username "") (error w 400 "username required")
    taken ← query (username_taken (to_lowercase username))
    exists ← or_return taken (error w 500 "internal error")
    return_if exists (error w 409 "username already taken")
    (status, body) ← call "/sign-up/email" (signup_body payload)
    pure (signup_reply status body)

  -- `StatusCode::from_u16(status).unwrap_or(INTERNAL_SERVER_ERROR)`
  unfoldable pub from_u16 : ℕ → ℕ
  from_u16 status = if leb 100 status && leb status 999 then status else 500

  unfoldable pub login_reply : ℕ → Text → Response Value
  unfolding session_body from_u16
  login_reply status body =
      if status == 200
      then json w 200 (session_body (json_body body))
      else if status == 401
      then error w 401 "invalid credentials"
      else error w (from_u16 status) "invalid input"

  unfoldable pub login : LoginPayload → Reply w (Response Value)
  unfolding login_reply
  login payload = do
    (status, body) ← call "/sign-in/email" (
        obj (
          ("email", str (get_or payload.email ""))
          ∷ ("password", str (get_or payload.password ""))
          ∷ []))
    pure (login_reply status body)
