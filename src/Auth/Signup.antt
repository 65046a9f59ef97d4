-- ===== src/Auth/Signup.antt =====
-- What sign-up and login answer (apps/api/src/auth.rs).
use epistl.Prelude.{ℕ, String, ◌≡◌, refl, true, false, get_or, str_eq}
use epistl.Wire.{Wire}
use epistl.Http.{Response, error}
use epistl.Db.Session.{Env, App, Conn, Handler, ◌>>=◌, run, drift, advance, start, app_of}
use epistl.Db.Session.Rules.{Ends, Ends-return_if, Ends-query_or, Ends-pure, run-Ends}
use epistl.Auth.{SignupPayload, Dispatch, call, username_taken, signup_reply, signup_body, signup}

module _ (w : Wire) (dispatch : Dispatch w) {P : Response w.Value → App w.Text → Type 0} {env : Env}
    {c : Conn w.Text} where
  Ends-call :
      (path : String) (body : w.Value) (k : ℕ × w.Text → Handler w.Value w.Text (Response w.Value))
      → Ends P (k (dispatch path body env c).0) env (dispatch path body env c).1
      → Ends P (call w dispatch path body >>= k) env c
  unfolding ◌>>=◌ call
  Ends-call path body k h = record { at = h.at }

module _ (w : Wire) (dispatch : Dispatch w) (payload : SignupPayload) (env : Env)
    (a : App w.Text) where
  -- the request that the crate gets
  abbrev pub answer : (ℕ × w.Text) × Conn w.Text
  answer = dispatch "/sign-up/email" (signup_body w dispatch payload) env (advance env (start a))

  -- How a sign-up ends.
  pub data SignedUp (r : Response w.Value) (b : App w.Text) : Type 0 where
    nameless :
        str_eq (get_or payload.username "") "" ≡ true
        → b ≡ a
        → r ≡ error w 400 "username required"
        → SignedUp r b
    failed : b.db ≡ drift env 1 a.db → r ≡ error w 500 "internal error" → SignedUp r b
    taken :
        username_taken w dispatch (w.to_lowercase (get_or payload.username "")) (drift env 1 a.db)
          ≡ true
        → b.db ≡ drift env 1 a.db
        → r ≡ error w 409 "username already taken"
        → SignedUp r b
    dispatched :
        str_eq (get_or payload.username "") "" ≡ false
        → username_taken w dispatch (w.to_lowercase (get_or payload.username "")) (drift env 1 a.db)
          ≡ false
        → b ≡ app_of answer.1
        → r ≡ signup_reply w dispatch answer.0.0 answer.0.1
        → SignedUp r b

  -- A sign-up is passed on exactly if it has a username that, in lower case, nobody has; without one,
  -- with a taken one, or when the look-up fails, nothing is written.
  pub signup-SignedUp : let (r, b) = run (signup w dispatch payload) env a in SignedUp r b
  unfolding signup
  signup-SignedUp = run-Ends SignedUp (signup w dispatch payload) env a (
      Ends-return_if _ _ _ (λ e. nameless e refl refl)
        λ named. Ends-query_or _ _ _ (failed refl refl) (
          Ends-return_if _ _ _ (λ e. taken e refl refl)
            λ free. Ends-call w dispatch _ _ _ (Ends-pure (dispatched named free refl refl))))
