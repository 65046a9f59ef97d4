-- ===== src/QuicClient.antt =====
-- packages/quic-relay-client/src/lib.rs: the client's side of a QUIC connection.
-- A step of quinn, rustls or tokio is an `Attempt`: what it gives, or the text of its error. The UniFFI
-- scaffolding, the runtime and the certificate verifier, which accepts everything, are not modelled.
pub mod Connecting
pub mod Reader
pub mod Callbacks
pub mod Progress
pub mod Rejection
use Prim.Native.Nat.{◌/◌, ◌%◌}
use epistl.Prelude.{
  ℕ, zero, suc, ◌+◌, String, Option, none, some, List, [], ◌∷◌, ◌++◌, codes, ltb, ◌==◌, Bool, true,
  false, if◌then◌else◌, take,
}
use epistl.Text.{Text}
use epistl.Wire.{Wire}

pub data ClientError : Type 0 where
  connection_failed : Text → ClientError
  stream_io_failed : Text → ClientError
  auth_failed : Text → ClientError

pub data Result (A : Type 0) : Type 0 where
  ok : A → Result A
  err : ClientError → Result A

infixl 5 ◌>>=◌
abbrev pub ◌>>=◌ : {A B : Type 0} → Result A → (A → Result B) → Result B
ok a >>= f = f a
err e >>= f = err e

pub data Attempt (A : Type 0) : Type 0 where
  success : A → Attempt A
  failure : Text → Attempt A

-- `map_err` with the message `{prefix}: {error}`.
abbrev pub or_failed : {A : Type 0} → Text → Attempt A → Result A
or_failed prefix (success a) = ok a
or_failed prefix (failure e) = err (connection_failed (prefix ++ (codes ": " ++ e)))

abbrev pub or_io_failed : {A : Type 0} → Text → Attempt A → Result A
or_io_failed prefix (success a) = ok a
or_io_failed prefix (failure e) = err (stream_io_failed (prefix ++ (codes ": " ++ e)))

-- What `tokio::spawn` hands back: the task's result, or that it panicked.
pub data Joined (A : Type 0) : Type 0 where
  finished : A → Joined A
  panicked : Text → Joined A

abbrev pub internal_panic : Text → Text
internal_panic e = codes "internal quic-relay-client task panicked: " ++ e

-- `{n}` for an unsigned number, which has at most as many digits as the fuel.
unfoldable pub show_digits : ℕ → ℕ → Text → Text
show_digits zero n after = after
show_digits (suc fuel) n after =
    let digits = (b'0' + n % 10) ∷ after in
    let more = show_digits fuel (n / 10) digits in if ltb n 10 then digits else more

unfoldable pub show_u64 : ℕ → Text
unfolding show_digits
show_u64 n = show_digits 20 n []

-- `quinn::ConnectionError`: an application's close with its code and reason, or any other with its text.
pub data ConnectionError : Type 0 where
  application_closed : ℕ → Text → ConnectionError
  other : Text → ConnectionError

abbrev pub close_code_unauthorized : ℕ
close_code_unauthorized = 4001

unfoldable pub describe_close_reason : ConnectionError → Text
unfolding show_u64
describe_close_reason (application_closed code reason) =
    codes "closed by peer with application error code "
    ++ (show_u64 code ++ (codes " (" ++ (reason ++ codes ")")))
describe_close_reason (other text) = text

-- How quinn prints an error.
abbrev pub Display : Type 0
Display = ConnectionError → Text

abbrev pub early_close : Display → ConnectionError → ClientError
early_close display error =
    connection_failed (codes "connection closed before auth could be confirmed: " ++ display error)

unfoldable pub classify_early_close : Display → ConnectionError → ClientError
unfolding describe_close_reason
classify_early_close display (application_closed code reason) =
    if code == close_code_unauthorized
    then auth_failed (describe_close_reason (application_closed code reason))
    else early_close display (application_closed code reason)
classify_early_close display (other text) = early_close display (other text)

-- What the steps up to an open stream give.
pub record Dialing : Type 0 where
  pub lookup_host : Attempt (List ℕ)
  pub tls_config : Attempt ℕ
  pub bind : Attempt ℕ
  pub start : Attempt ℕ
  pub handshake : Attempt ℕ
  pub open_bi : Attempt ℕ

abbrev pub first_address : Text → List ℕ → Result ℕ
first_address target [] = err (connection_failed (codes "no addresses resolved for " ++ target))
first_address target (address ∷ addresses) = ok address

unfoldable pub resolve_addr : Text → ℕ → Attempt (List ℕ) → Result ℕ
unfolding show_u64
resolve_addr host port found =
    let target = host ++ (codes ":" ++ show_u64 port) in
    or_failed (codes "failed to resolve " ++ target) found >>= first_address target

unfoldable pub open_stream : Text → Text → ℕ → Dialing → Result ℕ
unfolding resolve_addr
open_stream stream host port d = do
  address ← resolve_addr host port d.lookup_host
  config ← or_failed (codes "failed to build QUIC TLS config") d.tls_config
  endpoint ← or_failed (codes "failed to bind local UDP socket") d.bind
  connecting ← or_failed (codes "failed to start QUIC connection") d.start
  connection ← or_failed (codes "QUIC/TLS handshake failed") d.handshake
  or_failed (codes "failed to open " ++ stream) d.open_bi

-- `quic_ping`: how the write and the end of the sending side go, and what is read.
pub record Echo : Type 0 where
  pub write_all : Attempt ℕ
  pub finish : Attempt ℕ
  pub read_to_end : Attempt Text

unfoldable pub quic_ping_impl : Text → ℕ → Dialing → Echo → Result Text
unfolding open_stream
quic_ping_impl host port d e = do
  stream ← open_stream (codes "bidirectional stream") host port d
  written ← or_io_failed (codes "failed to write ping bytes") e.write_all
  ended ← or_io_failed (codes "failed to finish send stream") e.finish
  or_io_failed (codes "failed to read echoed response") e.read_to_end

abbrev pub ping_joined : Joined (Result Text) → Result Text
ping_joined (finished r) = r
ping_joined (panicked e) = err (stream_io_failed (internal_panic e))

-- The text of the auth frame. `to_string` of a `Value` does not fail.
unfoldable pub auth_text : (w : Wire) → String → w.Text
auth_text w token = w.to_text (w.obj (("type", w.str "auth") ∷ ("token", w.str token) ∷ []))
