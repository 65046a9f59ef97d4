-- ===== src/QuicClient/Rejection.antt =====
-- Which errors a caller of `connect` gets (packages/quic-relay-client/src/lib.rs).
use epistl.Prelude.{
  ℕ, ◌≡◌, ◌↔◌, refl, ap, String, Bool, true, false, Option, none, some, List, [], ◌∷◌, ◌++◌, ◌==◌,
  codes, Bool-cases, eq_of_==, inl, inr, arith,
}
use epistl.Text.{Text}
use epistl.Wire.{Wire}
use epistl.QuicClient.{
  connection_failed, stream_io_failed, auth_failed, Result, ok, err, ◌>>=◌, Attempt, success,
  failure, or_failed, or_io_failed, ConnectionError, application_closed, other,
  close_code_unauthorized, describe_close_reason, Display, classify_early_close, Dialing,
  resolve_addr, first_address, open_stream, show_u64,
}
use epistl.QuicClient.Reader.{Client}
-- What the steps of `connect` give: those up to the stream, the write of the auth frame, and whether the
use epistl.QuicClient.Connecting.{Opening, after_grace, build_auth_frame, connect_impl}

-- No step up to the open stream reports a rejected token.
abbrev is_rejected : {A : Type 0} → Result A → Bool
is_rejected (ok a) = false
is_rejected (err (auth_failed m)) = true
is_rejected (err (connection_failed m)) = false
is_rejected (err (stream_io_failed m)) = false

is_rejected->>= :
    {A B : Type 0} (prefix : Text) (a : Attempt A) (f : A → Result B)
    → ((x : A) → is_rejected (f x) ≡ false)
    → is_rejected (or_failed prefix a >>= f) ≡ false
is_rejected->>= prefix (success x) f h = h x
is_rejected->>= prefix (failure e) f h = refl

is_rejected-or_failed :
    {A : Type 0} (prefix : Text) (a : Attempt A) → is_rejected (or_failed prefix a) ≡ false
is_rejected-or_failed prefix (success x) = refl
is_rejected-or_failed prefix (failure e) = refl

is_rejected-open_stream :
    (stream host : Text) (port : ℕ) (d : Dialing)
    → is_rejected (open_stream stream host port d) ≡ false
unfolding open_stream resolve_addr
is_rejected-open_stream stream host port d =
    after_address
      (or_failed (codes "failed to resolve " ++ target) d.lookup_host >>= first_address target)
      (first_plain d.lookup_host)
  where
    target : Text
    target = host ++ (codes ":" ++ show_u64 port)

    first_plain :
        (a : Attempt (List ℕ))
        → is_rejected (or_failed (codes "failed to resolve " ++ target) a >>= first_address target)
          ≡ false
    first_plain (failure e) = refl
    first_plain (success []) = refl
    first_plain (success (address ∷ addresses)) = refl

    after_address :
        (r : Result ℕ)
        → is_rejected r ≡ false
        → is_rejected (
            r >>= λ address.
            or_failed (codes "failed to build QUIC TLS config") d.tls_config >>= λ config.
            or_failed (codes "failed to bind local UDP socket") d.bind >>= λ endpoint.
            or_failed (codes "failed to start QUIC connection") d.start >>= λ connecting.
            or_failed (codes "QUIC/TLS handshake failed") d.handshake >>= λ connection.
            or_failed (codes "failed to open " ++ stream) d.open_bi)
          ≡ false
    after_address (ok n) h = search (is_rejected->>=, is_rejected-or_failed)
    after_address (err (connection_failed e)) h = refl
    after_address (err (stream_io_failed e)) h = refl
    after_address (err (auth_failed e)) h = h

abbrev closing : Display → Result ℕ → Attempt ℕ → Option ConnectionError → Text → Result Client
closing display opened write grace arriving = opened >>= λ stream.
    or_io_failed (codes "failed to write auth frame") write >>= λ written.
    after_grace display grace arriving

abbrev Rejection : Result ℕ → Attempt ℕ → Option ConnectionError → Text → Type 0
Rejection opened write grace m =
    (stream written : ℕ) × (reason : Text) × (opened ≡ ok stream)
    × (write ≡ success written)
    × (grace ≡ some (application_closed close_code_unauthorized reason))
    × (m ≡ describe_close_reason (application_closed close_code_unauthorized reason))

unauthorized-only :
    (display : Display) (error : ConnectionError) (m : Text)
    → classify_early_close display error ≡ auth_failed m
    → (reason : Text) × (error ≡ application_closed close_code_unauthorized reason)
      × (m ≡ describe_close_reason (application_closed close_code_unauthorized reason))
unfolding classify_early_close
unauthorized-only display (other text) m h = cc
unauthorized-only display (application_closed code reason) m h =
    elim (Bool-cases (code == close_code_unauthorized)) [
      | inl e ↦ (
        reason,
        ground (arith, eq_of_== code close_code_unauthorized),
        ground (arith, eq_of_== code close_code_unauthorized),
      )
      | inr e ↦ ground arith
    ]

rejected-only :
    (display : Display) (opened : Result ℕ) (write : Attempt ℕ) (grace : Option ConnectionError)
    (arriving m : Text)
    → is_rejected opened ≡ false
    → closing display opened write grace arriving ≡ err (auth_failed m)
    → Rejection opened write grace m
rejected-only display (err (auth_failed e)) write grace arriving m p h = cc
rejected-only display (err (connection_failed e)) write grace arriving m p h = cc
rejected-only display (err (stream_io_failed e)) write grace arriving m p h = cc
rejected-only display (ok n) (failure e) grace arriving m p h = cc
rejected-only display (ok n) (success k) none arriving m p h = cc
rejected-only display (ok n) (success k) (some error) arriving m p h =
    let (reason, same_error, message) = unauthorized-only display error m (cc h) in
    (n, k, reason, refl, refl, ap some same_error, message)

rejection :
    (display : Display) (opened : Result ℕ) (write : Attempt ℕ) (grace : Option ConnectionError)
    (arriving m : Text)
    → Rejection opened write grace m
    → closing display opened write grace arriving ≡ err (auth_failed m)
unfolding classify_early_close
rejection display opened write grace arriving m (n, k, reason, e, f, g, message) =
    rw (e, f, g, message) refl

module _ (w : Wire) (spell : w.Text → Text) (display : Display) where
  -- `connect` reports a rejected token exactly if the stream was opened, the auth frame was written, and
  -- the server then closed the connection in time with its code for an unauthorized client; the
  -- message names that code and the server's reason.
  pub connect_impl-auth_failed :
      (host : Text) (port : ℕ) (token : String) (o : Opening) (arriving m : Text)
      → (connect_impl w spell display host port token o arriving ≡ err (auth_failed m)) ↔ (
          (stream written : ℕ) × (reason : Text) × (open_stream
              (codes "control stream")
              host
              port
              o.dialing
            ≡ ok stream)
          × (o.write_all (build_auth_frame w spell token) ≡ success written)
          × (o.closed_within_grace ≡ some (application_closed close_code_unauthorized reason))
          × (m ≡ describe_close_reason (application_closed close_code_unauthorized reason)))
  unfolding connect_impl
  connect_impl-auth_failed host port token o arriving m =
      let opened = open_stream (codes "control stream") host port o.dialing in
      let write = o.write_all (build_auth_frame w spell token) in
      (
        rejected-only display opened write o.closed_within_grace arriving m
            (is_rejected-open_stream (codes "control stream") host port o.dialing),
        rejection display opened write o.closed_within_grace arriving m,
      )
