-- ===== src/Auth/Bearer.antt =====
-- Which requests are authenticated (apps/api/src/auth.rs).
use Prim.Native.Char.{code}
use epistl.Prelude.{
  ℕ, String, str_eq, str_eq_iff, Bool-cases, inl, inr, ◌≡◌, ◌≢◌, refl, ap, ◌∙◌, ◌==◌, Bool, true,
  false, Option, none, some, ◌↔◌, ==_refl, eq_of_==, if◌then◌else◌,
}
use text.Mathlib.TextEquality.{Char-path}
use epistl.Contacts.Handlers.{Caller}
use epistl.Auth.{
  strip_prefix, nonempty, bearer_token, token_of, found_user, user_of, authenticated,
  authenticate_token, from_request_parts,
}

abbrev pub append : String → String → String
append String.[] t = t
append (String.◌∷◌ c s) t = String.◌∷◌ c (append s t)

strip_prefix-append : (p t : String) → strip_prefix p (append p t) ≡ some t
unfolding strip_prefix
strip_prefix-append String.[] t = refl
strip_prefix-append (String.◌∷◌ c p) t = rw (==_refl (code c)) (strip_prefix-append p t)

chosen :
    {A : Type 0} (b : Bool) (o : Option A) {t : A}
    → (if b then o else none) ≡ some t
    → (b ≡ true) × (o ≡ some t)
chosen true o h = (refl, h)
chosen false o h = cc

strip_prefix-only : (p s t : String) → strip_prefix p s ≡ some t → s ≡ append p t
unfolding strip_prefix
strip_prefix-only String.[] s t h = cc
strip_prefix-only (String.◌∷◌ c p) String.[] t h = cc
strip_prefix-only (String.◌∷◌ c p) (String.◌∷◌ d s) t h =
    let (same, rest) = chosen (code c == code d) (strip_prefix p s) h in
    cc (Char-path c d (eq_of_== (code c) (code d) same), strip_prefix-only p s t rest)

nonempty-only : (s t : String) → nonempty s ≡ some t → (s ≡ t) × (t ≢ "")
unfolding nonempty
nonempty-only String.[] t h = cc
nonempty-only (String.◌∷◌ c s) t h = (cc h, λ e. cc (h, e))

nonempty-some : (t : String) → t ≢ "" → nonempty t ≡ some t
unfolding nonempty
nonempty-some String.[] h = absurd (h refl)
nonempty-some (String.◌∷◌ c s) h = refl

-- A request has a bearer token exactly if its header is the scheme, one space and a text that is not
-- empty, which is the token.
pub bearer_token-append :
    (header : Option String) (t : String)
    → (bearer_token header ≡ some t) ↔ ((header ≡ some (append "Bearer " t)) × (t ≢ ""))
unfolding bearer_token token_of
bearer_token-append none t = (λ h. cc, λ h. cc h.0)
bearer_token-append (some header) t = (there (strip_prefix "Bearer " header) refl, back)
  where
    there :
        (o : Option String)
        → strip_prefix "Bearer " header ≡ o
        → token_of o ≡ some t
        → (some header ≡ some (append "Bearer " t)) × (t ≢ "")
    there none e h = cc
    there (some u) e h =
        let (same, ne) = nonempty-only u t h in
        (ap some (strip_prefix-only "Bearer " header u e ∙ ap (append "Bearer ") same), ne)

    back :
        (some header ≡ some (append "Bearer " t)) × (t ≢ "") → bearer_token (some header) ≡ some t
    back (e, ne) =
        let stripped : strip_prefix "Bearer " header ≡ some t =
          cc (e, strip_prefix-append "Bearer " t) in
        rw stripped (nonempty-some t ne)

str_eq_ne : (s t : String) → s ≢ t → str_eq s t ≡ false
str_eq_ne s t ne = elim (Bool-cases (str_eq s t)) [
  | inl e ↦ absurd (ne ((str_eq_iff s t).0 e))
  | inr e ↦ e
]

module _ (get_session : String → Option (Option ℕ)) (get_user_by_id : ℕ → Option (Option Caller))
    (user : Caller) where
  found-only :
      (o : Option (Option Caller))
      → found_user get_session get_user_by_id o ≡ some user
      → o ≡ some (some user)
  unfolding found_user
  found-only none h = cc
  found-only (some u) h = ap some h

  user-only :
      (o : Option (Option ℕ))
      → user_of get_session get_user_by_id o ≡ some user
      → (id : ℕ) × (o ≡ some (some id)) × (get_user_by_id id ≡ some (some user))
  unfolding user_of
  user-only none h = cc
  user-only (some none) h = cc
  user-only (some (some id)) h = (id, refl, found-only (get_user_by_id id) h)

  otherwise : (b : Bool) (o : Option Caller) → (if b then none else o) ≡ some user → o ≡ some user
  otherwise true o h = cc
  otherwise false o h = h

  token-only :
      (o : Option String)
      → authenticated get_session get_user_by_id o ≡ some user
      → (t : String) × (id : ℕ) × (o ≡ some t)
        × (get_session t ≡ some (some id))
        × (get_user_by_id id ≡ some (some user))
  unfolding authenticated authenticate_token
  token-only none h = cc
  token-only (some t) h =
      let (id, live, known) = user-only (get_session t) (otherwise (str_eq t "") _ h) in
      (t, id, refl, live, known)

  -- A request is let in as a user exactly if its header is the scheme, one space and a token that is not
  -- empty, for which there is a live session, of an id under which that user is found.
  pub from_request_parts-session :
      (header : Option String)
      → (from_request_parts get_session get_user_by_id header ≡ some user) ↔ (
          (t : String) × (id : ℕ) × (header ≡ some (append "Bearer " t))
          × (t ≢ "")
          × (get_session t ≡ some (some id))
          × (get_user_by_id id ≡ some (some user)))
  unfolding from_request_parts authenticated authenticate_token user_of found_user
  from_request_parts-session header = (there, back)
    where
      there :
          authenticated get_session get_user_by_id (bearer_token header) ≡ some user
          → (t : String) × (id : ℕ) × (header ≡ some (append "Bearer " t))
            × (t ≢ "")
            × (get_session t ≡ some (some id))
            × (get_user_by_id id ≡ some (some user))
      there h =
          let (t, id, e, live, known) = token-only (bearer_token header) h in
          let (same, ne) = (bearer_token-append header t).0 e in (t, id, same, ne, live, known)

      back :
          ((t : String) × (id : ℕ) × (header ≡ some (append "Bearer " t))
            × (t ≢ "")
            × (get_session t ≡ some (some id))
            × (get_user_by_id id ≡ some (some user)))
          → authenticated get_session get_user_by_id (bearer_token header) ≡ some user
      back (t, id, same, ne, live, known) =
          rw ((bearer_token-append header t).1 (same, ne), str_eq_ne t "" ne, live, known) refl
