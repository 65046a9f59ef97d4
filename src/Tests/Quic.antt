-- ===== src/Tests/Quic.antt =====
-- Concrete runs of apps/api/src/quic.rs.
use epistl.Prelude.{
  ℕ, refl, String, true, false, codes, ◌≡◌, ◌↔◌, Option, none, some, List, [], ◌∷◌, str_eq,
  if◌then◌else◌,
}
use epistl.Relay.Sending.{Moment}
use epistl.Ws.{handle_socket}
use epistl.Quic.{Read, line, eof, authenticate_first_frame, relay_connection}
use epistl.Quic.Mirrors.{socket_reads, relay_connection-handle_socket}
use epistl.Quic.Authentication.{IsAuthFrame, authenticate_first_frame-IsAuthFrame}
use epistl.Text.{same}
use epistl.Quic.Endpoint.{Crates, Process, ok, err, invalid_addr, maybe_spawn}
use epistl.Tests.SampleWire.{Tree, sample_wire}
use epistl.Tests.SampleStream.{sample_stream}
use epistl.Tests.Relay.{one_waiting, noon, to_cid}

abbrev reads : List (Moment × Read Tree)
reads = (noon, line to_cid) ∷ (noon, eof) ∷ []

relay_connection-handle_socket_example :
    relay_connection sample_wire sample_stream 2 20 reads one_waiting
    ≡ handle_socket sample_wire sample_stream 2 20 (socket_reads reads) one_waiting
relay_connection-handle_socket_example =
    relay_connection-handle_socket sample_wire sample_stream 2 20 reads one_waiting

abbrev auth_line : Read Tree
auth_line =
    line
      (sample_wire.obj (("type", sample_wire.str "auth") ∷ ("token", sample_wire.str "abc") ∷ []))

abbrev authenticate : String → Option ℕ
authenticate t = if str_eq t "abc" then some 2 else none

authenticate_first_frame-IsAuthFrame_example :
    (authenticate_first_frame sample_wire authenticate auth_line ≡ some 2)
    ↔ IsAuthFrame sample_wire authenticate 2 auth_line
authenticate_first_frame-IsAuthFrame_example =
    authenticate_first_frame-IsAuthFrame sample_wire authenticate auth_line 2

-- Each step answers what it is asked for with the next number; only one address parses.
abbrev crates : Crates
crates = record {
  parse = λ value. if same value (codes "0.0.0.0:4433") then ok 1 else err 7;
  generate_simple_self_signed = λ names. ok 2;
  with_single_cert = λ cert. ok 3;
  quic_crypto = λ config. ok 4;
  server = λ config addr. ok 5;
}

abbrev started : Process
started = record { has_provider = false; loops = [] }

listens_by_default :
    maybe_spawn crates none started ≡ (none, record { has_provider = true; loops = 5 ∷ [] })
unfolding maybe_spawn same
listens_by_default = refl

switched_off : maybe_spawn crates (some (codes "Off")) started ≡ (none, started)
unfolding maybe_spawn
switched_off = refl

no_address :
    maybe_spawn crates (some (codes "4433")) started
    ≡ (some (invalid_addr (codes "4433") 7), started)
unfolding maybe_spawn same
no_address = refl
