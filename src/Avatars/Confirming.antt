-- ===== src/Avatars/Confirming.antt =====
-- What a confirmed upload leaves, and when one is refused (apps/api/src/avatars.rs).
use epistl.Prelude.{
  ℕ, ◌≡◌, ◌≢◌, ◌≤◌, ◌<◌, refl, ap, sym, subst, ◌∙◌, ◌==◌, Bool, true, false, Option, none, some,
  List, [], ◌∷◌, map, ltb, if◌then◌else◌, Bool-cases, inl, inr, arith, String,
}
use epistl.Wire.{Wire}
use epistl.Http.{succeeded, bad_request}
use epistl.Db.{User, Tables}
use epistl.Db.Session.{Env, App, run, autocommit, or_return, ◌>>=◌}
use epistl.Contacts.Handlers.{Caller}
use epistl.Avatars.{
  Bucket, Store, max_avatar_bytes, Confirmed, confirm_upload, after_size, object_content_length,
  delete_object, store_path, set_image, with_image, image_of, serving_path,
}

abbrev pub image_after : String → Option (Option String) → Option (Option String)
image_after path none = none
image_after path (some image) = some (some path)

image_of-with_image :
    (v user : ℕ) (path : String) (xs : List User)
    → image_of v (map (with_image user path) xs)
      ≡ (if v == user then image_after path (image_of v xs) else image_of v xs)
image_of-with_image v user path [] = ground arith
image_of-with_image v user path (x ∷ xs) = ground (arith, image_of-with_image v user path xs)

module _ (w : Wire) (user : Caller) (env : Env) (a : App w.Text) where
  -- the tables as the UPDATE finds them
  abbrev pub found : Tables
  found = env.others 0 a.db

  abbrev pub written : Tables
  written = record found { users = map (with_image user.id (serving_path w user.id)) found.users }

  run-store_path_failed : env.fails 0 ≡ true → succeeded (run (store_path w user) env a).0 ≡ false
  unfolding run store_path ◌>>=◌ autocommit or_return
  run-store_path_failed e = rw (e, run) refl

  run-store_path :
      succeeded (run (store_path w user) env a).0 ≡ true
      → (run (store_path w user) env a).1.db ≡ written
  unfolding run store_path ◌>>=◌ autocommit or_return set_image
  run-store_path h = elim (Bool-cases (env.fails 0)) [
    | inl e ↦ cc (run-store_path_failed e)
    | inr e ↦ rw (e, run) refl
  ]

  -- The two ends of `after_size` where the object is there.
  abbrev sized : Store → Bucket → Bool → Confirmed w
  sized s b large =
      if large
      then (bad_request w "file_too_large", a, delete_object s user.id b)
      else ((run (store_path w user) env a).0, (run (store_path w user) env a).1, b)

  -- The object was there and not too large, and stays; the caller's row has the serving path.
  abbrev pub IsServed : Bucket → Confirmed w → Type 0
  IsServed b (r, a', b') =
      ((n : ℕ) × (b user.id ≡ some n) × (n ≤ max_avatar_bytes))
      × (b' ≡ b)
      × ((v : ℕ)
          → image_of v a'.db.users ≡ (
              if v == user.id
              then image_after (serving_path w user.id) (image_of v found.users)
              else image_of v found.users))

  after_size-IsServed :
      (s : Store) (b : Bucket) (size : Option (Option ℕ))
      → size ≡ some (b user.id)
      → succeeded (after_size w s user env a b size).0 ≡ true
      → IsServed b (after_size w s user env a b size)
  unfolding after_size
  after_size-IsServed s b none e h = cc
  after_size-IsServed s b (some none) e h = cc
  after_size-IsServed s b (some (some n)) e h = elim (Bool-cases (ltb max_avatar_bytes n)) [
    | inl large ↦ cc (ap (λ t. succeeded (sized s b t).0) (sym large) ∙ h)
    | inr small ↦
        subst (λ t. IsServed b (sized s b t)) (sym small)
          (stored (ap (λ t. succeeded (sized s b t).0) (sym small) ∙ h) small)
  ]
    where
      stored :
          succeeded (run (store_path w user) env a).0 ≡ true
          → ltb max_avatar_bytes n ≡ false
          → IsServed b (sized s b false)
      stored ok small = (
        (n, cc e, ground arith),
        refl,
        λ v.
            ap (λ (t : Tables). image_of v t.users) (run-store_path ok)
            ∙ image_of-with_image v user.id (serving_path w user.id) found.users,
      )

  -- After a success the object is there, is not larger than the limit, and is left as it is, and among
  -- the images of the users that the UPDATE found, only that of the caller's row has changed, to the
  -- caller's serving path.
  pub confirm_upload-IsServed :
      (s : Store) (b : Bucket)
      → succeeded (confirm_upload w s user env a b).0 ≡ true
      → IsServed b (confirm_upload w s user env a b)
  unfolding confirm_upload object_content_length
  confirm_upload-IsServed s b h = elim (Bool-cases s.head_fails) [
    | inl e ↦ cc (ap (λ t. succeeded (after_size w s user env a b (head t)).0) (sym e) ∙ h)
    | inr e ↦
        subst (λ t. IsServed b (after_size w s user env a b (head t))) (sym e)
          (after_size-IsServed s b (some (b user.id)) refl
            (ap (λ t. succeeded (after_size w s user env a b (head t)).0) (sym e) ∙ h))
  ]
    where
      head : Bool → Option (Option ℕ)
      head t = if t then none else some (b user.id)

  -- Refused for its size: no table changes, nobody else's object is touched, and it is deleted, unless
  -- the store reports an error.
  pub record IsRefused (s : Store) (b : Bucket) (c : Confirmed w) : Type 0 where
    pub response : c.0 ≡ bad_request w "file_too_large"
    pub same_app : c.1 ≡ a
    pub others : (v : ℕ) → v ≢ user.id → c.2 v ≡ b v
    pub deleted : s.delete_fails ≡ false → c.2 user.id ≡ none

  delete_object_other :
      (s : Store) (b : Bucket) (v : ℕ) → v ≢ user.id → delete_object s user.id b v ≡ b v
  unfolding delete_object
  delete_object_other s b v h = ground arith

  delete_object_self :
      (s : Store) (b : Bucket) → s.delete_fails ≡ false → delete_object s user.id b user.id ≡ none
  unfolding delete_object
  delete_object_self s b h = ground arith

  -- An object that is too large is refused whatever the database does: no table changes, nobody else's
  -- object is touched, and it is deleted, unless the store reports an error.
  pub confirm_upload-IsRefused :
      (s : Store) (b : Bucket) (n : ℕ)
      → s.head_fails ≡ false
      → b user.id ≡ some n
      → max_avatar_bytes < n
      → IsRefused s b (confirm_upload w s user env a b)
  unfolding confirm_upload object_content_length
  confirm_upload-IsRefused s b n e f h =
      let large : ltb max_avatar_bytes n ≡ true = ground arith in
      let size : (if s.head_fails then none else some (b user.id)) ≡ some (some n) =
        ap (λ t. if t then none else some (b user.id)) e ∙ ap some f in
      subst (IsRefused s b) (sym (ap (after_size w s user env a b) size ∙ ap (sized s b) large))
        (record {
          response = refl;
          same_app = refl;
          others = delete_object_other s b;
          deleted = delete_object_self s b;
        })
