-- ===== src/Tests/QuicClient.antt =====
-- Concrete runs of packages/quic-relay-client.
use epistl.Prelude.{
  ℕ, suc, ◌≤◌, ◌⊎◌, ◌≡◌, ◌↔◌, refl, String, true, false, Option, none, some, [], ◌∷◌, codes, str_eq,
  if◌then◌else◌,
}
use epistl.Text.{Text}
use epistl.Text.Lines.{split_lines}
use epistl.Quic.{line, authenticate_first_frame}
use epistl.QuicClient.{
  Dialing, Display, success, failure, ok, err, stream_io_failed, auth_failed, auth_text,
  application_closed, close_code_unauthorized, describe_close_reason, open_stream, show_u64,
}
use epistl.QuicClient.Connecting.{
  Opening, build_auth_frame, connect_impl, send_frame, authenticate_first_frame-auth_text,
}
use epistl.QuicClient.Reader.{
  Client, Step, Reach, here, next, reads, calls_frame, waiting, on_frame, spawned, close, read_line,
  frame_of,
}
use epistl.QuicClient.Callbacks.{IsTold, Reach-IsTold, frames_in}
use epistl.QuicClient.Progress.{Finishes, work, reader_task_ends}
use epistl.QuicClient.Rejection.{connect_impl-auth_failed}
use epistl.Tests.SampleWire.{Tree, sample_wire}

abbrev token_of_ann : String → Option ℕ
token_of_ann token = if str_eq token "secret" then some 1 else none

authenticate_first_frame-auth_text_example :
    authenticate_first_frame sample_wire token_of_ann (line (auth_text sample_wire "secret"))
    ≡ some 1
authenticate_first_frame-auth_text_example =
    authenticate_first_frame-auth_text sample_wire token_of_ann "secret"

abbrev dialing : Dialing
dialing = record {
  lookup_host = success (7 ∷ []);
  tls_config = success 0;
  bind = success 0;
  start = success 0;
  handshake = success 0;
  open_bi = success 0;
}

abbrev rejected : Opening
rejected = record {
  dialing = dialing;
  write_all = λ frame. success 0;
  closed_within_grace = some (application_closed 4001 (codes "unauthorized"));
}

abbrev spell : Tree → Text
spell t = codes "{}"

abbrev display : Display
display error = codes "closed"

abbrev rejection_text : Text
rejection_text = codes "closed by peer with application error code 4001 (unauthorized)"

rejected_token :
    connect_impl sample_wire spell display (codes "host") 4433 "bad" rejected []
    ≡ err (auth_failed rejection_text)
unfolding connect_impl
rejected_token = refl

connect_impl-auth_failed_example :
    (connect_impl sample_wire spell display (codes "host") 4433 "bad" rejected []
      ≡ err (auth_failed rejection_text))
    ↔ ((stream written : ℕ) × (reason : Text) × (open_stream
            (codes "control stream")
            (codes "host")
            4433
            dialing
          ≡ ok stream)
        × (rejected.write_all (build_auth_frame sample_wire spell "bad") ≡ success written)
        × (rejected.closed_within_grace ≡ some (application_closed close_code_unauthorized reason))
        × (rejection_text
            ≡ describe_close_reason (application_closed close_code_unauthorized reason)))
connect_impl-auth_failed_example =
    connect_impl-auth_failed sample_wire spell display (codes "host") 4433 "bad" rejected []
      rejection_text

abbrev arriving : Text
arriving = codes "one\r\ntwo"

-- The task hands over the first frame; then the caller closes, and the task is dropped.
abbrev told_one : Client
told_one = record {
  unread = codes "two";
  reader = waiting;
  aborted = false;
  has_handle = true;
  events = on_frame (codes "one") ∷ [];
}

reaches_one : Reach (spawned arriving) told_one
unfolding spawned read_line frame_of
reaches_one = next (next here (reads refl)) (calls_frame (codes "one\r\n") refl)

Reach-IsTold_example : IsTold arriving told_one
Reach-IsTold_example = Reach-IsTold arriving reaches_one

-- A reading that is ready when the caller closes runs on, and the listener is told of it.
told_after_close :
    (d : Client) × Reach (close told_one) d
    × (d.events ≡ on_frame (codes "one") ∷ on_frame (codes "two") ∷ [])
unfolding read_line frame_of
told_after_close = (_, next (next here (reads refl)) (calls_frame (codes "two") refl), refl)

two_frames : frames_in arriving ≡ codes "one" ∷ codes "two" ∷ []
unfolding frame_of split_lines
two_frames = refl

half_sent :
    send_frame
      (record { frame = failure (codes "lost"); delimiter = success 0; part = 2 })
      (codes "hello")
      (codes "x\n")
    ≡ (err (stream_io_failed (codes "failed to write frame: lost")), codes "x\nhe")
unfolding send_frame
half_sent = refl

decimal : show_u64 4002 ≡ codes "4002"
unfolding show_u64
decimal = refl

reader_task_ends_example :
    Finishes none (spawned (codes "a\nb")) (codes "a\nb") []
    × ((d e : Client) → Step d e → (suc (work e) ≤ work d) ⊎ (e ≡ close d))
unfolding spawned
reader_task_ends_example = reader_task_ends (spawned (codes "a\nb")) none refl refl
