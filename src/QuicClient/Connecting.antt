-- ===== src/QuicClient/Connecting.antt =====
-- `QuicConnection::connect` and `send`, and that the server understands the first frame
-- (packages/quic-relay-client/src/lib.rs).
use epistl.Prelude.{ℕ, ◌≡◌, refl, String, Option, none, some, List, [], ◌∷◌, ◌++◌, codes, take}
use epistl.Text.{Text}
use epistl.Wire.{Wire}
use epistl.Relay.Frames.{str_field}
use epistl.Quic.{line, authenticate_first_frame}
use epistl.QuicClient.{
  connection_failed, stream_io_failed, Result, ok, err, ◌>>=◌, Attempt, success, failure,
  or_io_failed, Joined, finished, panicked, internal_panic, ConnectionError, Display,
  classify_early_close, Dialing, open_stream, auth_text,
}
use epistl.QuicClient.Reader.{Client, spawned}

-- What the steps of `connect` give: those up to the stream, the write of the auth frame, and whether the
-- connection was closed before the time for it was over.
pub record Opening : Type 0 where
  pub dialing : Dialing
  pub write_all : Text → Attempt ℕ
  pub closed_within_grace : Option ConnectionError

abbrev pub after_grace : Display → Option ConnectionError → Text → Result Client
after_grace display none arriving = ok (spawned arriving)
after_grace display (some error) arriving = err (classify_early_close display error)

module _ (w : Wire) (spell : w.Text → Text) where
  unfoldable pub build_auth_frame : String → Text
  unfolding auth_text
  build_auth_frame token = spell (auth_text w token) ++ 10 ∷ []

  -- `arriving` is what will come on the stream.
  unfoldable pub connect_impl : Display → Text → ℕ → String → Opening → Text → Result Client
  unfolding open_stream build_auth_frame classify_early_close spawned
  connect_impl display host port token o arriving = do
    stream ← open_stream (codes "control stream") host port o.dialing
    written ←
        or_io_failed (codes "failed to write auth frame") (o.write_all (build_auth_frame token))
    after_grace display o.closed_within_grace arriving

abbrev pub connect_joined : Joined (Result Client) → Result Client
connect_joined (finished r) = r
connect_joined (panicked e) = err (connection_failed (internal_panic e))

-- A write that fails leaves a part of the text on the stream.
pub record Writes : Type 0 where
  pub frame : Attempt ℕ
  pub delimiter : Attempt ℕ
  pub part : ℕ

abbrev pub write_delimiter : Attempt ℕ → Text → Result ℕ × Text
write_delimiter (success k) stream = (ok k, stream ++ 10 ∷ [])
write_delimiter (failure e) stream =
    (or_io_failed (codes "failed to write frame delimiter") (failure e), stream)

abbrev pub write_frame : Attempt ℕ → Writes → Text → Text → Result ℕ × Text
write_frame (success k) w frame stream = write_delimiter w.delimiter (stream ++ frame)
write_frame (failure e) w frame stream =
    (or_io_failed (codes "failed to write frame") (failure e), stream ++ take w.part frame)

-- The result, and what is on the stream afterwards.
unfoldable pub send_frame : Writes → Text → Text → Result ℕ × Text
send_frame w frame stream = write_frame w.frame w frame stream

abbrev pub send_joined : Joined (Result ℕ) → Result ℕ
send_joined (finished r) = r
send_joined (panicked e) = err (stream_io_failed (internal_panic e))

str_field-str :
    (w : Wire) (v : w.Value) (name s : String)
    → w.get v name ≡ some (w.str s)
    → str_field w v name ≡ some s
unfolding str_field
str_field-str w v name s h = rw (h, str_field) (w.as_str-str s)

-- The first frame of a client authenticates it at the server as whom its token does, and nobody else.
pub authenticate_first_frame-auth_text :
    (w : Wire) (authenticate_token : String → Option ℕ) (token : String)
    → authenticate_first_frame w authenticate_token (line (auth_text w token))
      ≡ authenticate_token token
unfolding authenticate_first_frame auth_text
authenticate_first_frame-auth_text w authenticate_token token =
    let fields : List (String × w.Value) = ("type", w.str "auth") ∷ ("token", w.str token) ∷ [] in
    rw
      (
        w.from_text-to_text (w.obj fields),
        str_field-str w (w.obj fields) "type" "auth" (w.get-obj fields "type" refl),
        str_field-str w (w.obj fields) "token" token (w.get-obj fields "token" refl),
      )
      refl
