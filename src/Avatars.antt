-- ===== src/Avatars.antt =====
-- apps/api/src/avatars.rs: the three handlers for avatars. The object store is a service: its bucket has
-- one object for each user, of some size, and each call to it may fail. A presigned URL is given.
pub mod Confirming
use Prim.Native.String.{◌++◌ as str_append}
use epistl.Prelude.{
  ℕ, ◌*◌, String, ◌==◌, str_eq, ◌||◌, ◌&&◌, Bool, true, false, not, Option, none, some, get_or,
  List, [], ◌∷◌, map, ltb, if◌then◌else◌,
}
use epistl.Wire.{Wire}
use epistl.Http.{Response, json, error, internal_error, bad_request}
use epistl.Db.{User, Tables}
use epistl.Db.Session.{
  Handler, Env, App, Write, ◌>>=◌, ◌>>◌, pure, query, autocommit, or_return, return_if, run,
}
use epistl.Contacts.Handlers.{Caller, Reply}

abbrev pub max_avatar_bytes : ℕ
max_avatar_bytes = 5 * 1024 * 1024

abbrev pub is_allowed : String → Bool
is_allowed content_type = str_eq content_type "image/png" || str_eq content_type "image/jpeg"

-- The sizes of the objects, by the user whose key it is: a key spells its user's id.
abbrev pub Bucket : Type 0
Bucket = ℕ → Option ℕ

-- Which calls of the store report an error, and whether a deletion that does took place all the same.
pub record Store : Type 0 where
  pub head_fails : Bool
  pub delete_fails : Bool
  pub delete_lands : Bool

-- `object_content_length`; `none` is an error.
unfoldable pub object_content_length : Store → ℕ → Bucket → Option (Option ℕ)
object_content_length s user b = if s.head_fails then none else some (b user)

-- `delete_object`, whose result the caller throws away.
unfoldable pub delete_object : Store → ℕ → Bucket → Bucket
delete_object s user b =
    if s.delete_fails && not s.delete_lands then b else λ u. if u == user then none else b u

-- The image of a row, and the statement UPDATE users SET image = $1 WHERE id = $2, which succeeds
-- also where there is no such row.
abbrev pub with_image : ℕ → String → User → User
with_image user path x = if x.id == user then record x { image = some path } else x

unfoldable pub set_image : ℕ → String → Write (Unit {0})
set_image user path t = some (tt, record t { users = map (with_image user path) t.users })

-- SELECT image FROM users WHERE id = $1
abbrev pub image_of : ℕ → List User → Option (Option String)
image_of user [] = none
image_of user (x ∷ xs) = if x.id == user then some x.image else image_of user xs

abbrev pub has_image : Option (Option String) → Bool
has_image (some (some image)) = true
has_image (some none) = false
has_image none = false

-- A response, or a redirection to a URL with the status 302.
pub data AvatarReply (V : Type 0) : Type 0 where
  answer : Response V → AvatarReply V
  redirect : String → AvatarReply V

module _ (w : Wire) where
  open w use {Value, str, obj, uuid_text}

  unfoldable pub serving_path : ℕ → String
  serving_path user = str_append "/api/avatar/" (uuid_text user)

  abbrev pub not_found : Response Value
  not_found = error w 404 "not_found"

  abbrev pub upload_reply : String → Option String → Response Value
  upload_reply content_type none = internal_error w
  upload_reply content_type (some url) =
      json w 200 (obj (("uploadUrl", str url) ∷ ("contentType", str content_type) ∷ []))

  -- `presigned_put_url` is given the content type, which it signs.
  unfoldable pub request_upload_url : (String → Option String) → Option String → Response Value
  request_upload_url presigned_put_url payload =
      let content_type = get_or payload "" in
      if not (is_allowed content_type)
      then bad_request w "invalid_content_type"
      else upload_reply content_type (presigned_put_url content_type)

  -- The UPDATE and its reply.
  store_path : Caller → Reply w (Response Value)
  unfolding serving_path set_image
  store_path user = do
    updated ← autocommit (λ _ _. set_image user.id (serving_path user.id))
    done ← or_return updated (internal_error w)
    pure (json w 200 (obj (("image", str (serving_path user.id)) ∷ [])))

  abbrev pub Confirmed : Type 0
  Confirmed = Response Value × App w.Text × Bucket

  -- What comes after the size of the object is known.
  after_size : Store → Caller → Env → App w.Text → Bucket → Option (Option ℕ) → Confirmed
  unfolding store_path delete_object
  after_size s user env a b none = (internal_error w, a, b)
  after_size s user env a b (some none) = (not_found, a, b)
  after_size s user env a b (some (some content_length)) =
      let (r, a') = run (store_path user) env a in
      if ltb max_avatar_bytes content_length
      then (bad_request w "file_too_large", a, delete_object s user.id b)
      else (r, a', b)

  unfoldable pub confirm_upload : Store → Caller → Env → App w.Text → Bucket → Confirmed
  unfolding after_size object_content_length
  confirm_upload s user env a b = after_size s user env a b (object_content_length s user.id b)

  abbrev pub located : (String → Bool) → Option String → AvatarReply Value
  located is_header none = answer (internal_error w)
  located is_header (some url) = if is_header url then redirect url else answer (internal_error w)

  abbrev pub after_row :
      (String → Bool) → Option String → Option (Option (Option String)) → AvatarReply Value
  after_row is_header presigned none = answer (internal_error w)
  after_row is_header presigned (some row) =
      if has_image row then located is_header presigned else answer not_found

  -- `fails` is whether the SELECT does, `presigned` the URL for the object, `is_header` whether a text can
  -- stand in a header. It writes nothing.
  unfoldable pub get_avatar :
      Bool → (String → Bool) → Option String → ℕ → Tables → AvatarReply Value
  get_avatar fails is_header presigned user t =
      after_row is_header presigned (if fails then none else some (image_of user t.users))
