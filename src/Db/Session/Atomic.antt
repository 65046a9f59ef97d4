-- ===== src/Db/Session/Atomic.antt =====
-- What a handler promises of its writes: all of them or none, and the reply says which, except
-- that a commit may come through unseen.
use epistl.Prelude.{ℕ, ◌≡◌, ◌≢◌, ap, ◌∙◌, true, false, some}
use epistl.Wire.{Wire}
use epistl.Registry.{Hub}
use epistl.Http.{Response, succeeded, internal_error}
use epistl.Db.{Tables}
use epistl.Db.Session.{Env, App, Write, apply, drift}

pub eq-apply :
    {A : Type 0} (write : Write A) (t u : Tables) {x : A}
    → write t ≡ some (x, u)
    → u ≡ apply write t
eq-apply write t u h = rw (h, apply)

module _ (w : Wire) (env : Env) (a : App w.Text) {Q : Type 0} (Found : Q → Type 0) (n : ℕ)
    (writes : Q → Tables → Tables) (told : Q → Hub w.Text) (ok : Q → Response w.Value) where
  -- `Found` is what the handler has checked, `writes` its writes at the `n`-th statement, `told` the
  -- connections after its pushes, `ok` its reply.
  pub data Atomic (r : Response w.Value) (b : App w.Text) : Type 0 where
    unchanged : (k : ℕ) → b.db ≡ drift env k a.db → b.hub ≡ a.hub → succeeded r ≡ false → Atomic r b
    unseen :
        (q : Q)
        → Found q
        → b.db ≡ writes q (drift env n a.db)
        → b.hub ≡ a.hub
        → r ≡ internal_error w
        → Atomic r b
    done :
        (q : Q)
        → Found q
        → b.db ≡ writes q (drift env n a.db)
        → b.hub ≡ told q
        → r ≡ ok q
        → Atomic r b

module _ {w : Wire} {env : Env} {a : App w.Text} {Q : Type 0} {Found : Q → Type 0} {n : ℕ}
    {writes : Q → Tables → Tables} {told : Q → Hub w.Text} {ok : Q → Response w.Value}
    {r : Response w.Value} {b : App w.Text} where
  -- After a success the writes are there.
  pub Atomic-succeeded :
      Atomic w env a Found n writes told ok r b
      → succeeded r ≡ true
      → (q : Q) × Found q × (b.db ≡ writes q (drift env n a.db)) × (b.hub ≡ told q) × (r ≡ ok q)
  Atomic-succeeded (unchanged k p h no_success) s = cc
  Atomic-succeeded (unseen q f p h e) s = cc (ap succeeded e)
  Atomic-succeeded (done q f p h e) s = (q, f, p, h, e)

  -- After any failure but an internal error nothing has changed.
  pub Atomic-refused :
      Atomic w env a Found n writes told ok r b
      → succeeded r ≡ false
      → r ≢ internal_error w
      → ((q : Q) → succeeded (ok q) ≡ true)
      → (k : ℕ) × (b.db ≡ drift env k a.db) × (b.hub ≡ a.hub)
  Atomic-refused (unchanged k p h _) s i g = (k, p, h)
  Atomic-refused (unseen q f p h e) s i g = absurd (i e)
  Atomic-refused (done q f p h e) s i g = cc (ap succeeded e, g q)

-- What the writes are is said by any function that agrees with them.
pub Atomic-writes :
    {w : Wire} {env : Env} {a : App w.Text} {Q : Type 0} {Found : Q → Type 0} {n : ℕ}
    {writes : Q → Tables → Tables} {told : Q → Hub w.Text} {ok : Q → Response w.Value}
    {r : Response w.Value} {b : App w.Text} (effect : Q → Tables → Tables)
    → ((q : Q) → Found q → writes q (drift env n a.db) ≡ effect q (drift env n a.db))
    → Atomic w env a Found n writes told ok r b
    → Atomic w env a Found n effect told ok r b
Atomic-writes effect h (unchanged k p g no_success) = unchanged k p g no_success
Atomic-writes effect h (unseen q f p g e) = unseen q f (p ∙ h q f) g e
Atomic-writes effect h (done q f p g e) = done q f (p ∙ h q f) g e
