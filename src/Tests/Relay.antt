-- ===== src/Tests/Relay.antt =====
-- Concrete runs of apps/api/src/relay.rs, registry.rs and ws.rs.
use epistl.Prelude.{ℕ, ◌≡◌, refl, true, none, some, List, [], ◌∷◌, ◌==◌, ◌&&◌, not, count}
use epistl.Db.{PushToken}
use epistl.Registry.{text, Hub, get as registry_get, insert, remove_if_current, is_gone}
use epistl.Registry.Table.{
  Call, insertion, query, removal, perform_all, specified_all, Holds, perform_all-Holds,
}
use epistl.Relay.Frames.{message_frame, payload_of}
use epistl.Relay.Sending.{Moment, St, send_to_contact, or_false}
use epistl.Relay.Sending.Ends.{Sent, send_to_contact-Sent}
use epistl.Relay.Catchup.{relay_of, deliver_queued_messages}
use epistl.Relay.Catchup.Delivery.{
  deliver_queued_messages-sent, deliver_queued_messages_loses_nothing,
}
use epistl.Relay.Background.{redeliver_if_now_connected}
use epistl.Relay.Background.Outcomes.{Redelivered, redeliver_if_now_connected-Redelivered}
use epistl.Relay.Background.Duplicates.{redeliver-caught_up}
use epistl.Tests.SampleWire.{Tree, sample_wire}
use epistl.Tests.SampleStream.{sample_stream}

-- Ann (1) is connected on channel 10, Cid (3) on channel 30, Bob (2) not at all; Ann and Bob are contacts.
abbrev pub hub : Hub Tree
hub = record { entries = (1, 10) ∷ (3, 30) ∷ []; gone = []; sent = [] }

abbrev pub idle : St sample_wire sample_stream
idle = record { hub = hub; stream = (5, []); tasks = []; pushes = [] }

abbrev pub noon : Moment
noon = record { is_contact = λ a b. some (a == 1 && b == 2); live_at = 7; queued_at = 8 }

abbrev to_bob : Tree
to_bob = sample_wire.obj (
    ("type", sample_wire.str "send")
    ∷ ("to", sample_wire.str "11")
    ∷ ("body_b64", sample_wire.str "aa")
    ∷ [])

abbrev pub to_cid : Tree
to_cid = sample_wire.obj (
    ("type", sample_wire.str "send")
    ∷ ("to", sample_wire.str "111")
    ∷ ("body_b64", sample_wire.str "aa")
    ∷ [])

-- a message for Bob, queued, and one for Cid
abbrev pub one_waiting : St sample_wire sample_stream
one_waiting = record idle {
  stream = (
    7,
    record { sequence = 5; recipient = 2; payload = payload_of sample_wire 1 "aa" "1" }
        ∷ record { sequence = 6; recipient = 3; payload = payload_of sample_wire 1 "bb" "1" }
        ∷ [],
  );
}

abbrev bob_back : St sample_wire sample_stream
bob_back = record one_waiting { hub = record hub { entries = (2, 20) ∷ hub.entries } }

-- Bob connects twice; the cleanup of his first connection leaves the second one.
abbrev bob_reconnects : List Call
bob_reconnects = insertion 2 20 ∷ insertion 2 21 ∷ removal 2 20 ∷ query 2 ∷ removal 1 10 ∷ []

hub_answers : (perform_all bob_reconnects hub).0 ≡ none ∷ some 20 ∷ none ∷ some 21 ∷ none ∷ []
unfolding insert registry_get remove_if_current
hub_answers = refl

perform_all-Holds_example :
    ((perform_all bob_reconnects hub).0
      ≡ (specified_all bob_reconnects (λ u. registry_get u hub)).0)
    × Holds
        (perform_all bob_reconnects hub).1
        (specified_all bob_reconnects (λ u. registry_get u hub)).1
        []
        []
perform_all-Holds_example =
    perform_all-Holds bob_reconnects (λ u. registry_get u hub) hub
      (record { finds = λ u. refl; same_gone = refl; same_sent = refl })

send_to_contact-Sent_example :
    Sent sample_wire sample_stream noon 1 10 2 "aa" idle
      (send_to_contact sample_wire sample_stream noon 1 2 "aa" 10 idle)
unfolding or_false
send_to_contact-Sent_example =
    send_to_contact-Sent sample_wire sample_stream noon 1 10 2 "aa" idle refl

deliver_queued_messages-sent_example :
    (deliver_queued_messages sample_wire sample_stream 2 20 bob_back).hub.sent
    ≡ (20, text (relay_of sample_wire (payload_of sample_wire 1 "aa" "1"))) ∷ []
unfolding is_gone
deliver_queued_messages-sent_example =
    deliver_queued_messages-sent sample_wire sample_stream 20 2 bob_back
      (record { sequence = 5; recipient = 2; payload = payload_of sample_wire 1 "aa" "1" } ∷ [])
      refl refl

deliver_queued_messages_loses_nothing_example :
    (is_gone bob_back.hub 20 ≡ true
      → deliver_queued_messages sample_wire sample_stream 2 20 bob_back ≡ bob_back)
    × ((n : ℕ)
        → (not (5 == n) && true) ≡ true
        → count
            (λ x. x.sequence == n)
            (deliver_queued_messages sample_wire sample_stream 2 20 bob_back).stream.1
          ≡ count (λ x. x.sequence == n) bob_back.stream.1)
deliver_queued_messages_loses_nothing_example =
    deliver_queued_messages_loses_nothing sample_wire sample_stream 20 2 bob_back
      (record { sequence = 5; recipient = 2; payload = payload_of sample_wire 1 "aa" "1" } ∷ [])
      refl

abbrev bob_frame : Tree
bob_frame =
    message_frame sample_wire (sample_wire.str "1") (sample_wire.str "aa") (sample_wire.str "1")

redeliver_if_now_connected-Redelivered_example :
    Redelivered sample_wire sample_stream 2 5 bob_frame bob_back
      (redeliver_if_now_connected sample_wire sample_stream 2 5 bob_frame bob_back)
redeliver_if_now_connected-Redelivered_example =
    redeliver_if_now_connected-Redelivered sample_wire sample_stream 2 5 bob_frame bob_back

abbrev tokens : List PushToken
tokens =
    record { id = 1; user_id = 2; token = "t"; created_at = 0 }
    ∷ record { id = 2; user_id = 3; token = "u"; created_at = 0 }
    ∷ []

redeliver-caught_up_example :
    (redeliver_if_now_connected sample_wire sample_stream 2 5 bob_frame
      (deliver_queued_messages sample_wire sample_stream 2 20 bob_back)).hub.sent
    ≡ (20, text bob_frame) ∷ (20, text bob_frame) ∷ []
unfolding registry_get is_gone
redeliver-caught_up_example =
    redeliver-caught_up sample_wire sample_stream 2 20 1 "aa" "1" bob_back [] []
      (record { sequence = 5; recipient = 2; payload = payload_of sample_wire 1 "aa" "1" }) refl
      refl refl refl
