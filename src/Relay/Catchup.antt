-- ===== src/Relay/Catchup.antt =====
-- `deliver_queued_messages` of apps/api/src/relay.rs, which a new connection runs first.
pub mod Delivery
pub mod Keeps
use epistl.Prelude.{ℕ, Bool, true, false, Option, none, some, List, [], ◌∷◌, if◌then◌else◌}
use epistl.Wire.{Wire}
use epistl.Relay.JetStream.{Queued, JetStream}
use epistl.Relay.Frames.{message_frame, or_null, emit}
use epistl.Relay.Sending.{St}

abbrev pub max_queued_messages_per_fetch : ℕ
max_queued_messages_per_fetch = 256

module _ (w : Wire) where
  open w use {Value, get}

  -- the frame for a queued payload
  unfoldable pub relay_of : Value → Value
  relay_of p =
      message_frame w (or_null w (get p "from")) (or_null w (get p "body_b64"))
        (or_null w (get p "sent_at"))

module _ (w : Wire) (j : JetStream w.Text) where
  open w use {Value, from_text}

  -- One turn of the loop; the flag tells whether it goes on. The send is made first, the
  -- acknowledgement after it; a send that fails ends the loop, a payload that is no JSON is passed over.
  unfoldable pub deliver_one : ℕ → Queued w.Text → Option Value → St w j → Bool × St w j
  deliver_one tx m none st = (true, st)
  deliver_one tx m (some p) st =
      let (ok, st') = emit w tx (relay_of w p) st in
      if ok then (true, record st' { stream = j.ack m.sequence st'.stream }) else (false, st')

  -- the loop over what was fetched
  unfoldable pub deliver_each : ℕ → List (Queued w.Text) → St w j → St w j
  unfolding deliver_one
  deliver_each tx [] st = st
  deliver_each tx (m ∷ ms) st =
      let rest = deliver_each tx ms in
      let (go_on, st') = deliver_one tx m (from_text m.payload) st in
      if go_on then rest st' else st'

  fetched : ℕ → Option (List (Queued w.Text)) → St w j → St w j
  unfolding deliver_each
  fetched tx none st = st
  fetched tx (some messages) st = deliver_each tx messages st

  unfoldable pub deliver_queued_messages : ℕ → ℕ → St w j → St w j
  unfolding fetched
  deliver_queued_messages user tx st =
      fetched tx (j.fetch max_queued_messages_per_fetch user st.stream) st
