-- ===== src/Db/Session.antt =====
-- How a handler talks to the database: statements that may fail, other sessions that commit
-- between them (READ COMMITTED), and transactions. A handler may reply early (`return`).
-- The writes of an open transaction are kept as a function, and are made on the committed
-- tables at `COMMIT`; dropping the transaction forgets them.
pub mod Rules
pub mod Atomic
use epistl.Prelude.{ℕ, zero, suc, Bool, true, false, Option, none, some, if◌then◌else◌}
use epistl.Db.{Tables}
use epistl.Registry.{Hub}
use epistl.Http.{Response}

-- What the surroundings do at the statement of each number.
pub record Env : Type 0 where
  -- what other sessions have committed since the statement before
  pub others : ℕ → Tables → Tables
  -- the statement reports an error
  pub fails : ℕ → Bool
  -- a commit that reports an error took place all the same
  pub lands : ℕ → Bool
  -- `gen_random_uuid()` for each row that it inserts, and `now()`
  pub uuid : ℕ → ℕ → ℕ
  pub now : ℕ → ℕ

-- A statement that writes; `none` is a violated constraint.
abbrev pub Write : Type 0 → Type 0
Write A = Tables → Option (A × Tables)

abbrev pub apply : {A : Type 0} → Write A → Tables → Tables
apply w t = elim (w t) [ none ↦ t | some (_, t') ↦ t' ]

-- The part of `AppState` that these handlers change.
pub record App (T : Type 0) : Type 0 where
  pub db : Tables
  pub hub : Hub T

-- A handler under way: `uncommitted` are the writes of its transaction, `step` counts statements.
pub record Conn (T : Type 0) : Type 0 where
  pub db : Tables
  pub hub : Hub T
  pub uncommitted : Tables → Tables
  pub step : ℕ

pub data Outcome (V A : Type 0) : Type 0 where
  value : A → Outcome V A
  reply : Response V → Outcome V A

abbrev pub Handler : Type 0 → Type 0 → Type 0 → Type 0
Handler V T A = Env → Conn T → Outcome V A × Conn T

module _ {V T A : Type 0} where
  abbrev pub pure : A → Handler V T A
  pure a env c = (value a, c)

  -- `return response`
  abbrev pub return : Response V → Handler V T A
  return r env c = (reply r, c)

module _ {V T A B : Type 0} where
  abbrev pub continue : Outcome V A → (A → Handler V T B) → Handler V T B
  continue (value a) f = f a
  continue (reply r) f = return r

  infixl 5 ◌>>=◌ ◌>>◌
  unfoldable pub ◌>>=◌ : Handler V T A → (A → Handler V T B) → Handler V T B
  ◌>>=◌ m f env c = let (o, c') = m env c in continue o f env c'

  abbrev pub ◌>>◌ : Handler V T A → Handler V T B → Handler V T B
  m >> k = m >>= λ _. k

-- The tables as the next statement finds them, before the writes of its own transaction.
abbrev pub advance : {T : Type 0} → Env → Conn T → Conn T
advance env c = record c { db = env.others c.step c.db; step = suc c.step }

-- After a write in the transaction.
abbrev pub enqueue : {T A : Type 0} → Write A → Env → Conn T → Conn T
enqueue write env c = record (advance env c) { uncommitted = λ t. apply write (c.uncommitted t) }

-- After the transaction is over, with these tables.
abbrev pub settle : {T : Type 0} → Tables → Env → Conn T → Conn T
settle db env c = record (advance env c) { db = db; uncommitted = λ t. t }

abbrev pub app_of : {T : Type 0} → Conn T → App T
app_of c = record { db = c.db; hub = c.hub }

abbrev pub start : {T : Type 0} → App T → Conn T
start a = record { db = a.db; hub = a.hub; uncommitted = λ t. t; step = 0 }

module _ {V T : Type 0} where
  -- A statement that reads; `none` is an error.
  unfoldable pub query : {A : Type 0} → (Tables → A) → Handler V T (Option A)
  query f env c = (
    value (if env.fails c.step then none else some (f (c.uncommitted (env.others c.step c.db)))),
    advance env c,
  )

  -- `pool.begin()`: the flag is `is_ok()`.
  unfoldable pub begin : Handler V T Bool
  begin env c = (
    value (if env.fails c.step then false else true),
    record (advance env c) { uncommitted = λ t. t },
  )

  -- A write inside the transaction. One that fails leaves nothing to commit.
  unfoldable pub execute : {A : Type 0} → ((ℕ → ℕ) → ℕ → Write A) → Handler V T (Option A)
  execute w env c =
      let write = w (env.uuid c.step) (env.now c.step) in
      if env.fails c.step
      then (value none, advance env c)
      else elim (write (c.uncommitted (env.others c.step c.db))) [
        | none ↦ (value none, advance env c)
        | some (a, _) ↦ (value (some a), enqueue write env c)
      ]

  -- `tx.commit()`
  unfoldable pub commit : Handler V T Bool
  commit env c =
      let db = env.others c.step c.db in
      let done = c.uncommitted db in
      if env.fails c.step
      then (value false, settle (if env.lands c.step then done else db) env c)
      else (value true, settle done env c)

  -- A write outside a transaction, which is committed at once.
  unfoldable pub autocommit : {A : Type 0} → ((ℕ → ℕ) → ℕ → Write A) → Handler V T (Option A)
  autocommit w env c =
      let db = env.others c.step c.db in
      let write = w (env.uuid c.step) (env.now c.step) in
      if env.fails c.step
      then (value none, settle (if env.lands c.step then apply write db else db) env c)
      else elim (write db) [
        | none ↦ (value none, settle db env c)
        | some (a, db') ↦ (value (some a), settle db' env c)
      ]

  -- `match x { Ok(a) => a, Err(_) => return r }`, and the same for an option.
  unfoldable pub or_return : {A : Type 0} → Option A → Response V → Handler V T A
  or_return none r = return r
  or_return (some a) r = pure a

  unfoldable pub return_if : Bool → Response V → Handler V T Unit
  return_if true r = return r
  return_if false r = pure tt

  -- A handler from its first statement to its response; an open transaction is dropped.
  unfoldable pub run : Handler V T (Response V) → Env → App T → Response V × App T
  run m env a = let (o, c) = m env (start a) in (elim o [ value r ↦ r | reply r ↦ r ], app_of c)

-- What the other sessions alone make of the tables in the first `n` statements.
abbrev pub drift : Env → ℕ → Tables → Tables
drift env zero t = t
drift env (suc n) t = env.others n (drift env n t)
