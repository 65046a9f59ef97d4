-- ===== src/Push/Outcomes.antt =====
-- When a push counts as delivered (apps/api/src/push.rs).
use epistl.Prelude.{
  ℕ, String, ◌≡◌, refl, ap, ◌∙◌, ◌↔◌, inl, inr, false, Option, none, some, Bool-cases,
}
use epistl.Push.{
  ExpoPushErrorDetails, Failure, ExpoPushTicket, ok, error, Result, delivered, err, rejected,
  request_failed, HttpReply, no_response, broken_body, response, is_server_error, error_code,
  of_ticket, of_reply,
}

module _ {T : Type 0} (parse : T → Option (Option ExpoPushTicket)) where
  -- What Expo says of a delivered and of a rejected push.
  pub data Says : HttpReply T → Result T → Type 0 where
    accepted :
        (status : ℕ) (body : T)
        → is_server_error status ≡ false
        → parse body ≡ some (some ok)
        → Says (response status body) delivered
    refused :
        (status : ℕ) (body : T) (message : String) (details : Option ExpoPushErrorDetails)
        → is_server_error status ≡ false
        → parse body ≡ some (some (error message details))
        → Says (response status body) (err (rejected (error_code details) message))
    failed : (r : HttpReply T) (why : Failure T) → Says r (err (request_failed why))

  ticket-Says :
      (status : ℕ) (body : T) (o : Option (Option ExpoPushTicket))
      → is_server_error status ≡ false
      → parse body ≡ o
      → Says (response status body) (of_ticket parse status body o)
  unfolding of_ticket
  ticket-Says status body none h e = failed _ _
  ticket-Says status body (some none) h e = failed _ _
  ticket-Says status body (some (some ok)) h e = accepted status body h e
  ticket-Says status body (some (some (error message details))) h e =
      refused status body message details h e

  -- A push counts as delivered only on an ok ticket, and as rejected only on an error ticket, whose code
  -- and message it carries, and neither on a server error; anything else is a failed request.
  pub of_reply-Says : (r : HttpReply T) → Says r (of_reply parse r)
  unfolding of_reply
  of_reply-Says no_response = failed _ _
  of_reply-Says broken_body = failed _ _
  of_reply-Says (response status body) = elim (Bool-cases (is_server_error status)) [
    | inl e ↦ rw e (failed _ _)
    | inr e ↦ rw e (ticket-Says status body (parse body) e refl)
  ]

  -- The response that makes a push delivered.
  abbrev pub IsAccepted : HttpReply T → Type 0
  IsAccepted r =
      (status : ℕ) × (body : T) × (r ≡ response status body)
      × (is_server_error status ≡ false)
      × (parse body ≡ some (some ok))

  only-IsAccepted : (r : HttpReply T) (x : Result T) → Says r x → x ≡ delivered → IsAccepted r
  only-IsAccepted _ _ (accepted status body h p) e = (status, body, refl, h, p)
  only-IsAccepted _ _ (refused status body message details h p) e = cc
  only-IsAccepted _ _ (failed r why) e = cc

  accepts : (r : HttpReply T) → IsAccepted r → of_reply parse r ≡ delivered
  unfolding of_reply of_ticket
  accepts r (status, body, e, h, p) = ap (of_reply parse) e ∙ rw (h, p) refl

  -- A push counts as delivered exactly if there is a response that is no server error and holds an ok
  -- ticket.
  pub of_reply-IsAccepted : (r : HttpReply T) → (of_reply parse r ≡ delivered) ↔ IsAccepted r
  of_reply-IsAccepted r = (only-IsAccepted r (of_reply parse r) (of_reply-Says r), accepts r)
