-- ===== src/Quic/Endpoint.antt =====
-- apps/api/src/quic.rs: where the listener binds, how it starts, and its loop over connections. What the
-- crates answer (rcgen, rustls, quinn) is a parameter, and so is `str::parse` for a socket address; an
-- address, a value of a crate or an error is a number.
use epistl.Prelude.{
  ℕ, ◌≡◌, inl, inr, refl, Bool, true, false, Option, none, some, List, [], ◌∷◌, ◌++◌, map,
  filter_map, if◌then◌else◌, codes, Bool-cases,
}
use epistl.Text.{Text, same, ascii_lower}

abbrev pub default_listen_addr : Text
default_listen_addr = codes "0.0.0.0:4433"

abbrev pub disable_value : Text
disable_value = codes "off"

pub data QuicListenError : Type 0 where
  invalid_addr : Text → ℕ → QuicListenError
  generate_cert : ℕ → QuicListenError
  build_tls_config : ℕ → QuicListenError
  build_quic_config : ℕ → QuicListenError
  bind : ℕ → ℕ → QuicListenError

-- `Result`.
pub data Tried (E A : Type 0) : Type 0 where
  ok : A → Tried E A
  err : E → Tried E A

abbrev pub and_next :
    {A B : Type 0}
    → (ℕ → QuicListenError)
    → Tried ℕ A
    → (A → Tried QuicListenError B)
    → Tried QuicListenError B
and_next error (err e) next = err (error e)
and_next error (ok a) next = next a

pub record Crates : Type 0 where
  pub parse : Text → Tried ℕ ℕ
  pub generate_simple_self_signed : List Text → Tried ℕ ℕ
  pub with_single_cert : ℕ → Tried ℕ ℕ
  pub quic_crypto : ℕ → Tried ℕ ℕ
  pub server : ℕ → ℕ → Tried ℕ ℕ

-- Whether a default crypto provider is installed, and the endpoints whose accept loops run.
pub record Process : Type 0 where
  pub has_provider : Bool
  pub loops : List ℕ

-- How the parts of an error are printed.
pub record Printing : Type 0 where
  pub debug : Text → Text
  pub addr : ℕ → Text
  pub error : ℕ → Text

unfoldable pub display : Printing → QuicListenError → Text
display p (invalid_addr value source) =
    codes "QUIC_LISTEN_ADDR="
    ++ (p.debug value ++ (codes " is not a valid socket address: " ++ p.error source))
display p (generate_cert e) = codes "failed to generate self-signed dev cert: " ++ p.error e
display p (build_tls_config e) = codes "failed to build QUIC TLS server config: " ++ p.error e
display p (build_quic_config e) = codes "failed to adapt TLS config for QUIC: " ++ p.error e
display p (bind addr source) =
    codes "failed to bind QUIC listener on " ++ (p.addr addr ++ (codes ": " ++ p.error source))

unfoldable pub eq_ignore_ascii_case : Text → Text → Bool
unfolding ascii_lower same
eq_ignore_ascii_case s t = same (map ascii_lower s) (map ascii_lower t)

-- The variable, if it is set to text.
abbrev pub value_of : Option Text → Text
value_of none = default_listen_addr
value_of (some value) = value

module _ (k : Crates) where
  abbrev pub parsed : Text → Tried QuicListenError (Option ℕ)
  parsed value = and_next (invalid_addr value) (k.parse value) (λ addr. ok (some addr))

  abbrev pub addr_of : Text → Tried QuicListenError (Option ℕ)
  addr_of value = if eq_ignore_ascii_case value disable_value then ok none else parsed value

  unfoldable pub resolve_listen_addr : Option Text → Tried QuicListenError (Option ℕ)
  unfolding eq_ignore_ascii_case
  resolve_listen_addr variable = addr_of (value_of variable)

  unfoldable pub build_server_config : Tried QuicListenError ℕ
  build_server_config =
      and_next generate_cert
        (k.generate_simple_self_signed (codes "localhost" ∷ codes "127.0.0.1" ∷ []))
        (λ cert.
          and_next build_tls_config (k.with_single_cert cert)
            (λ config. and_next build_quic_config (k.quic_crypto config) ok))

  abbrev pub served : ℕ → Tried QuicListenError ℕ → Tried QuicListenError ℕ
  served addr (err e) = err e
  served addr (ok config) = and_next (bind addr) (k.server config addr) ok

  -- The provider is installed first, and stays.
  unfoldable pub bind_endpoint : ℕ → Process → Tried QuicListenError ℕ × Process
  unfolding build_server_config
  bind_endpoint addr p = (served addr build_server_config, record p { has_provider = true })

  abbrev pub spawn : Tried QuicListenError ℕ × Process → Option QuicListenError × Process
  spawn (err e, p) = (some e, p)
  spawn (ok endpoint, p) = (none, record p { loops = endpoint ∷ p.loops })

  abbrev pub spawn_at :
      Tried QuicListenError (Option ℕ) → Process → Option QuicListenError × Process
  spawn_at (err e) p = (some e, p)
  spawn_at (ok none) p = (none, p)
  spawn_at (ok (some addr)) p = spawn (bind_endpoint addr p)

  -- The error, if there is one.
  unfoldable pub maybe_spawn : Option Text → Process → Option QuicListenError × Process
  unfolding resolve_listen_addr bind_endpoint
  maybe_spawn variable p = spawn_at (resolve_listen_addr variable) p

  -- What has become of a start: nothing as the listener is disabled, an error that starts no loop, or one
  -- loop more, for the endpoint that was bound to the address of the variable or to the default one.
  pub data IsStart (variable : Option Text) (p : Process)
      : Option QuicListenError × Process → Type 0 where
    disabled :
        eq_ignore_ascii_case (value_of variable) disable_value ≡ true → IsStart variable p (none, p)
    refused :
        (e : QuicListenError) (q : Process) → q.loops ≡ p.loops → IsStart variable p (some e, q)
    listening :
        (addr endpoint : ℕ)
        → eq_ignore_ascii_case (value_of variable) disable_value ≡ false
        → k.parse (value_of variable) ≡ ok addr
        → served addr build_server_config ≡ ok endpoint
        → IsStart variable p (none, record { has_provider = true; loops = endpoint ∷ p.loops })

  -- A start without an error is disabled or listens at its address; with an error no accept loop runs more.
  pub maybe_spawn-IsStart :
      (variable : Option Text) (p : Process) → IsStart variable p (maybe_spawn variable p)
  unfolding maybe_spawn resolve_listen_addr bind_endpoint
  maybe_spawn-IsStart variable p =
      elim (Bool-cases (eq_ignore_ascii_case (value_of variable) disable_value)) [
        | inl off ↦ rw off (disabled off)
        | inr on ↦ rw on (by_parse on (k.parse (value_of variable)) refl)
      ]
    where
      by_endpoint :
          (addr : ℕ)
          → (eq_ignore_ascii_case (value_of variable) disable_value ≡ false)
          → k.parse (value_of variable) ≡ ok addr
          → (r : Tried QuicListenError ℕ) → served addr build_server_config ≡ r
          → IsStart variable p (spawn (r, record p { has_provider = true }))
      by_endpoint addr a b (err e) c = refused e (record p { has_provider = true }) refl
      by_endpoint addr a b (ok endpoint) c = listening addr endpoint a b c

      by_parse :
          (eq_ignore_ascii_case (value_of variable) disable_value ≡ false)
          → (r : Tried ℕ ℕ) → k.parse (value_of variable) ≡ r
          → IsStart variable p
              (spawn_at (and_next (invalid_addr (value_of variable)) r (λ addr. ok (some addr))) p)
      by_parse a (err e) b = refused (invalid_addr (value_of variable) e) p refl
      by_parse a (ok addr) b = by_endpoint addr a b (served addr build_server_config) refl

-- The connections that the loop hands on, each in a task of its own, of the attempts that are accepted until
-- the endpoint is closed: those whose handshake succeeds.
unfoldable pub accept_loop : {A : Type 0} → List (Option A) → List A
accept_loop attempts = filter_map (λ connecting. connecting) attempts
