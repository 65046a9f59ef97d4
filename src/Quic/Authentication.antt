-- ===== src/Quic/Authentication.antt =====
-- Which first lines authenticate a QUIC connection (apps/api/src/quic.rs).
use epistl.Prelude.{
  ℕ, String, str_eq_iff, ◌≡◌, refl, ap, ◌∙◌, ◌↔◌, Bool, true, false, Option, none, some,
  if◌then◌else◌,
}
use epistl.Wire.{Wire}
use epistl.Relay.Frames.{str_field}
use epistl.Quic.{Read, line, eof, failed, of_token, is_auth, of_frame, authenticate_first_frame}

module _ (w : Wire) (authenticate_token : String → Option ℕ) where
  -- An auth frame with a token that authenticates the user.
  abbrev pub IsAuthFrame : ℕ → Read w.Text → Type 0
  IsAuthFrame user first =
      (t : w.Text) × (v : w.Value) × (token : String) × (first ≡ line t)
      × (w.from_text t ≡ some v)
      × (str_field w v "type" ≡ some "auth")
      × (str_field w v "token" ≡ some token)
      × (authenticate_token token ≡ some user)

  token-only :
      (o : Option String) (user : ℕ)
      → of_token w authenticate_token o ≡ some user
      → (token : String) × (o ≡ some token) × (authenticate_token token ≡ some user)
  unfolding of_token
  token-only none user h = cc
  token-only (some token) user h = (token, refl, h)

  auth-only : (o : Option String) → is_auth w authenticate_token o ≡ true → o ≡ some "auth"
  unfolding is_auth
  auth-only none h = cc
  auth-only (some kind) h = ap some ((str_eq_iff kind "auth").0 h)

  chosen :
      (b : Bool) (o : Option ℕ) {user : ℕ}
      → (if b then o else none) ≡ some user
      → (b ≡ true) × (o ≡ some user)
  chosen true o h = (refl, h)
  chosen false o h = cc

  frame-only :
      (o : Option w.Value) (user : ℕ)
      → of_frame w authenticate_token o ≡ some user
      → (v : w.Value) × (token : String) × (o ≡ some v)
        × (str_field w v "type" ≡ some "auth")
        × (str_field w v "token" ≡ some token)
        × (authenticate_token token ≡ some user)
  unfolding of_frame
  frame-only none user h = cc
  frame-only (some v) user h =
      let (kind, named) = chosen (is_auth w authenticate_token (str_field w v "type")) _ h in
      let (token, given, known) = token-only (str_field w v "token") user named in
      (v, token, refl, auth-only (str_field w v "type") kind, given, known)

  sound :
      (first : Read w.Text) (user : ℕ)
      → authenticate_first_frame w authenticate_token first ≡ some user
      → IsAuthFrame user first
  unfolding authenticate_first_frame
  sound (line t) user h =
      let (v, token, parsed, kind, given, known) = frame-only (w.from_text t) user h in
      (t, v, token, refl, parsed, kind, given, known)
  sound eof user h = cc
  sound failed user h = cc

  complete :
      (first : Read w.Text) (user : ℕ)
      → IsAuthFrame user first
      → authenticate_first_frame w authenticate_token first ≡ some user
  unfolding authenticate_first_frame of_frame of_token is_auth
  complete first user (t, v, token, e, parsed, kind, given, known) =
      ap (authenticate_first_frame w authenticate_token) e ∙ rw (parsed, kind, given) known

  -- A QUIC connection is authenticated as a user exactly if its first line is a JSON frame of the type
  -- auth with a token that authenticates this user.
  pub authenticate_first_frame-IsAuthFrame :
      (first : Read w.Text) (user : ℕ)
      → (authenticate_first_frame w authenticate_token first ≡ some user) ↔ IsAuthFrame user first
  authenticate_first_frame-IsAuthFrame first user = (sound first user, complete first user)
