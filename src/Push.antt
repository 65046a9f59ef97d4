-- ===== src/Push.antt =====
-- apps/api/src/push.rs: a push through Expo's service. The HTTP client and the derived parser of
-- the response are given.
pub mod Outcomes
use epistl.Prelude.{ℕ, String, ◌&&◌, Bool, Option, none, some, [], ◌∷◌, leb, ltb, if◌then◌else◌}
use epistl.Wire.{Wire}

-- `ExpoPushErrorDetails` and `ExpoPushTicket`
pub record ExpoPushErrorDetails : Type 0 where
  pub error : Option String

pub data ExpoPushTicket : Type 0 where
  ok : ExpoPushTicket
  -- message, details
  error : String → Option ExpoPushErrorDetails → ExpoPushTicket

-- Why a request failed; the source writes it as a text for people.
pub data Failure (T : Type 0) : Type 0 where
  not_sent body_unread : Failure T
  server_error unparsed missing_data : ℕ → T → Failure T

pub data PushError (T : Type 0) : Type 0 where
  -- expo_error_code, message
  rejected : Option String → String → PushError T
  request_failed : Failure T → PushError T

pub data Result (T : Type 0) : Type 0 where
  delivered : Result T
  err : PushError T → Result T

-- What the client brings back: no response, a response with an unreadable body, or a status and a body.
pub data HttpReply (T : Type 0) : Type 0 where
  no_response broken_body : HttpReply T
  response : ℕ → T → HttpReply T

unfoldable pub is_server_error : ℕ → Bool
is_server_error status = leb 500 status && ltb status 600

unfoldable pub error_code : Option ExpoPushErrorDetails → Option String
error_code none = none
error_code (some d) = d.error

module _ {T : Type 0} (parse : T → Option (Option ExpoPushTicket)) where
  of_ticket : ℕ → T → Option (Option ExpoPushTicket) → Result T
  unfolding error_code
  of_ticket status body none = err (request_failed (unparsed status body))
  of_ticket status body (some none) = err (request_failed (missing_data status body))
  of_ticket status body (some (some ok)) = delivered
  of_ticket status body (some (some (error message details))) =
      err (rejected (error_code details) message)

  -- the match on the response in `send_push_notification_to`
  unfoldable pub of_reply : HttpReply T → Result T
  unfolding of_ticket is_server_error
  of_reply no_response = err (request_failed not_sent)
  of_reply broken_body = err (request_failed body_unread)
  of_reply (response status body) =
      if is_server_error status
      then err (request_failed (server_error status body))
      else of_ticket status body (parse body)

module _ (w : Wire) (client : String → w.Value → HttpReply w.Text)
    (parse : w.Text → Option (Option ExpoPushTicket)) where
  open w use {Value, Text, str, obj}

  abbrev expo_push_api_url : String
  expo_push_api_url = "https://exp.host/--/api/v2/push/send"

  unfoldable pub send_push_notification_to : String → String → String → String → Value → Result Text
  unfolding of_reply
  send_push_notification_to endpoint token title body data_value = of_reply parse (
      client endpoint (
        obj (
          ("to", str token)
          ∷ ("title", str title)
          ∷ ("body", str body)
          ∷ ("data", data_value)
          ∷ [])))

  unfoldable pub send_push_notification : String → String → String → Value → Result Text
  unfolding send_push_notification_to
  send_push_notification token title body data_value =
      send_push_notification_to expo_push_api_url token title body data_value
