-- ===== src/Relay/Background.antt =====
-- The tasks that `queue_for_offline_delivery` of apps/api/src/relay.rs spawns.
pub mod Outcomes
pub mod Duplicates
use epistl.Prelude.{
  ℕ, ◌==◌, String, Option, none, some, List, [], ◌∷◌, ◌++◌, map, retain, if◌then◌else◌,
}
use epistl.Wire.{Wire}
use epistl.Db.{PushToken}
use epistl.Registry.{get as registry_get}
use epistl.Relay.JetStream.{JetStream}
use epistl.Relay.Frames.{Task, redeliver, notify, Push, emit}
use epistl.Relay.Sending.{St}

module _ (w : Wire) (j : JetStream w.Text) where
  open w use {Value, str, obj, uuid_text}

  forward : ℕ → ℕ → Value → St w j → St w j
  forward recipient_tx sequence relay st =
      let (ok, st') = emit w recipient_tx relay st in
      if ok then record st' { stream = j.delete_message sequence st'.stream } else st'

  forward_to : Option ℕ → ℕ → Value → St w j → St w j
  unfolding forward
  forward_to none sequence relay st = st
  forward_to (some recipient_tx) sequence relay st = forward recipient_tx sequence relay st

  unfoldable pub redeliver_if_now_connected : ℕ → ℕ → Value → St w j → St w j
  unfolding forward_to
  redeliver_if_now_connected to sequence relay st =
      forward_to (registry_get to st.hub) sequence relay st

  -- SELECT token FROM push_tokens WHERE user_id = $1
  unfoldable pub tokens_of : ℕ → List PushToken → List String
  tokens_of user rows = map (λ r. r.token) (retain (λ r. r.user_id == user) rows)

  unfoldable pub push_for : ℕ → String → Push Value
  push_for from token = record {
    token = token;
    title = "New message";
    body = "You have a new message";
    data_value = obj (("type", str "message") ∷ ("fromUserId", str (uuid_text from)) ∷ []);
  }

  -- The rows of `push_tokens` that the query reads are given; an error is `none`.
  unfoldable pub notify_push_tokens_for_offline_message :
      Option (List PushToken) → ℕ → ℕ → St w j → St w j
  notify_push_tokens_for_offline_message none to from st = st
  notify_push_tokens_for_offline_message (some rows) to from st = record st {
    pushes = st.pushes ++ map (push_for from) (tokens_of to rows);
  }

  unfoldable pub run_task : Option (List PushToken) → Task Value → St w j → St w j
  unfolding redeliver_if_now_connected notify_push_tokens_for_offline_message
  run_task rows (redeliver to sequence relay) st = redeliver_if_now_connected to sequence relay st
  run_task rows (notify to from) st = notify_push_tokens_for_offline_message rows to from st
