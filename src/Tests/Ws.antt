-- ===== src/Tests/Ws.antt =====
-- Concrete runs of apps/api/src/ws.rs.
use epistl.Prelude.{some, ◌≡◌, refl, [], ◌∷◌, arith}
use epistl.Registry.{text, close, lookup, get as registry_get}
use epistl.Relay.Sending.{or_false}
use epistl.Relay.Sending.Privacy.{sent_to}
use epistl.Ws.{text_message, receive, connect}
use epistl.Ws.World.{World, Reachable, started, stepped, connects}
use epistl.Ws.World.Ownership.{Reachable-IsOwned, Reachable-receive_private}
use epistl.Tests.SampleWire.{sample_wire}
use epistl.Tests.SampleStream.{sample_stream}
use epistl.Tests.Relay.{idle, noon, to_cid}

abbrev empty : World sample_wire sample_stream
empty = record {
  st = record idle { hub = record { entries = []; gone = []; sent = [] } };
  owners = [];
}

abbrev ann_on : World sample_wire sample_stream
ann_on = record { st = connect sample_wire sample_stream 1 10 empty.st; owners = (10, 1) ∷ [] }

-- Ann is connected on channel 10 and Cid on channel 30.
abbrev both_on : World sample_wire sample_stream
both_on = record {
  st = connect sample_wire sample_stream 3 30 ann_on.st;
  owners = (30, 3) ∷ (10, 1) ∷ [];
}

both_on-Reachable : Reachable sample_wire sample_stream both_on
both_on-Reachable =
    stepped ann_on both_on (stepped empty ann_on (started (5, [])) (connects 1 10 refl))
      (connects 3 30 refl)

Reachable-IsOwned_example : lookup 30 both_on.owners ≡ some 3
unfolding registry_get connect epistl.Relay.Catchup.deliver_queued_messages epistl.Registry.insert
Reachable-IsOwned_example = Reachable-IsOwned sample_wire sample_stream both_on-Reachable 3 30 refl

Reachable-receive_private_example :
    sent_to 30 (receive sample_wire sample_stream noon 1 10 (text_message to_cid) both_on.st).1.hub
    ≡ sent_to 30 both_on.st.hub
unfolding or_false
Reachable-receive_private_example =
    Reachable-receive_private sample_wire sample_stream both_on-Reachable noon 1 10 30 3
      (text_message to_cid) (omega arith) refl refl
