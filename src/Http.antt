-- ===== src/Http.antt =====
-- The responses of the handlers: a status code, and a JSON body where there is one.
use epistl.Prelude.{ℕ, String, Bool, Option, none, some, [], ◌∷◌, ltb}
use epistl.Wire.{Wire}

pub record Response (V : Type 0) : Type 0 where
  pub status : ℕ
  pub body : Option V

abbrev pub succeeded : {V : Type 0} → Response V → Bool
succeeded r = ltb r.status 300

module _ (w : Wire) where
  open w use {Value, str, obj}

  abbrev pub json : ℕ → Value → Response Value
  json code v = record { status = code; body = some v }

  abbrev pub error : ℕ → String → Response Value
  error code e = json code (obj (("error", str e) ∷ []))

  abbrev pub no_content : Response Value
  no_content = record { status = 204; body = none }

  -- `internal_error`, which every module of the API declares alike
  abbrev pub internal_error : Response Value
  internal_error = error 500 "internal_error"

  abbrev pub bad_request : String → Response Value
  bad_request e = error 400 e
