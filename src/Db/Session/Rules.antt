-- ===== src/Db/Session/Rules.antt =====
-- One rule for each way in which a handler goes on: what holds at the end follows from what holds
-- at the end of each branch. The statements stay shut in the proofs that use the rules.
use epistl.Prelude.{
  ℕ, ◌≡◌, refl, inl, inr, Bool, true, false, not, Option, none, some, Bool-cases, Option-cases,
}
use epistl.Http.{Response}
use epistl.Db.{Tables}
use epistl.Db.Session.{
  Env, App, Conn, Outcome, value, reply, Handler, Write, apply, pure, ◌>>=◌, advance, enqueue,
  settle, app_of, start, query, begin, execute, commit, autocommit, or_return, return_if, run,
}

module _ {V T : Type 0} where
  abbrev At : (Response V → App T → Type 0) → Outcome V (Response V) × Conn T → Type 0
  At P (value r, c) = P r (app_of c)
  At P (reply r, c) = P r (app_of c)

  -- Where `m` ends, `P` holds of the response and of what is left behind.
  pub record Ends (P : Response V → App T → Type 0) (m : Handler V T (Response V)) (env : Env)
      (c : Conn T) : Type 0 where
    pub at : At P (m env c)

module _ {V T : Type 0} {P : Response V → App T → Type 0} {env : Env} {c : Conn T} where
  pub Ends-pure : {r : Response V} → P r (app_of c) → Ends P (pure r) env c
  Ends-pure h = record { at = h }

  pub Ends-or_return :
      {A : Type 0} (o : Option A) (r : Response V) (k : A → Handler V T (Response V))
      → (o ≡ none → P r (app_of c))
      → ((x : A) → o ≡ some x → Ends P (k x) env c)
      → Ends P (or_return o r >>= k) env c
  unfolding ◌>>=◌ or_return
  Ends-or_return none r k stop go = record { at = stop refl }
  Ends-or_return (some x) r k stop go = go x refl

  pub Ends-or_return-some :
      {A : Type 0} {x : A} (r : Response V) (k : A → Handler V T (Response V))
      → Ends P (k x) env c
      → Ends P (or_return (some x) r >>= k) env c
  unfolding ◌>>=◌ or_return
  Ends-or_return-some r k h = record { at = h.at }

  pub Ends-return_if :
      (b : Bool) (r : Response V) (k : Unit → Handler V T (Response V))
      → (b ≡ true → P r (app_of c))
      → (b ≡ false → Ends P (k tt) env c)
      → Ends P (return_if b r >>= k) env c
  unfolding ◌>>=◌ return_if
  Ends-return_if true r k stop go = record { at = stop refl }
  Ends-return_if false r k stop go = go refl

  pub Ends-query :
      {A : Type 0} (f : Tables → A) (k : Option A → Handler V T (Response V))
      → Ends P (k none) env (advance env c)
      → Ends P (k (some (f (c.uncommitted (env.others c.step c.db))))) env (advance env c)
      → Ends P (query f >>= k) env c
  unfolding ◌>>=◌ query
  Ends-query f k no_row row = elim (Bool-cases (env.fails c.step)) [
    | inl e ↦ record { at = rw e no_row.at }
    | inr e ↦ record { at = rw e row.at }
  ]

  pub Ends-begin :
      (k : Bool → Handler V T (Response V))
      → Ends P (k false) env (settle (env.others c.step c.db) env c)
      → Ends P (k true) env (settle (env.others c.step c.db) env c)
      → Ends P (begin >>= k) env c
  unfolding ◌>>=◌ begin
  Ends-begin k closed opened = elim (Bool-cases (env.fails c.step)) [
    | inl e ↦ record { at = rw e closed.at }
    | inr e ↦ record { at = rw e opened.at }
  ]

  pub Ends-execute :
      {A : Type 0} (w : (ℕ → ℕ) → ℕ → Write A) (k : Option A → Handler V T (Response V))
      → Ends P (k none) env (advance env c)
      → ((x : A) (t : Tables)
          → w (env.uuid c.step) (env.now c.step) (c.uncommitted (env.others c.step c.db))
            ≡ some (x, t)
          → Ends P (k (some x)) env (enqueue (w (env.uuid c.step) (env.now c.step)) env c))
      → Ends P (execute w >>= k) env c
  unfolding ◌>>=◌ execute
  Ends-execute w k failed wrote = elim (Bool-cases (env.fails c.step)) [
    | inl e ↦ record { at = rw e failed.at }
    | inr e ↦
        (elim (Option-cases
          (w (env.uuid c.step) (env.now c.step) (c.uncommitted (env.others c.step c.db)))) [
            | inl violated ↦ record { at = rw (e, violated) failed.at }
            | inr (x, done) ↦ record { at = rw (e, done) (wrote x.0 x.1 done).at }
          ])
  ]

  pub Ends-commit :
      (k : Bool → Handler V T (Response V))
      → Ends P (k false) env (settle (env.others c.step c.db) env c)
      → Ends P (k false) env (settle (c.uncommitted (env.others c.step c.db)) env c)
      → Ends P (k true) env (settle (c.uncommitted (env.others c.step c.db)) env c)
      → Ends P (commit >>= k) env c
  unfolding ◌>>=◌ commit
  Ends-commit k lost landed committed = elim (Bool-cases (env.fails c.step)) [
    | inr e ↦ record { at = rw e committed.at }
    | inl e ↦ (elim (Bool-cases (env.lands c.step)) [
      | inl l ↦ record { at = rw (e, l) landed.at }
      | inr l ↦ record { at = rw (e, l) lost.at }
    ])
  ]

  pub Ends-autocommit :
      {A : Type 0} (w : (ℕ → ℕ) → ℕ → Write A) (k : Option A → Handler V T (Response V))
      → Ends P (k none) env (settle (env.others c.step c.db) env c)
      → Ends P
          (k none)
          env
          (settle (apply (w (env.uuid c.step) (env.now c.step)) (env.others c.step c.db)) env c)
      → ((x : A) (t : Tables)
          → w (env.uuid c.step) (env.now c.step) (env.others c.step c.db) ≡ some (x, t)
          → Ends P (k (some x)) env (settle t env c))
      → Ends P (autocommit w >>= k) env c
  unfolding ◌>>=◌ autocommit
  Ends-autocommit w k lost landed wrote = elim (Bool-cases (env.fails c.step)) [
    | inl e ↦ (elim (Bool-cases (env.lands c.step)) [
      | inl l ↦ record { at = rw (e, l) landed.at }
      | inr l ↦ record { at = rw (e, l) lost.at }
    ])
    | inr e ↦ (elim (Option-cases (w (env.uuid c.step) (env.now c.step) (env.others c.step c.db))) [
      | inl violated ↦ record { at = rw (e, violated) lost.at }
      | inr (x, done) ↦ record { at = rw (e, done) (wrote x.0 x.1 done).at }
    ])
  ]

-- A statement and the reply to its error, as they stand together everywhere.
module _ {V T : Type 0} {P : Response V → App T → Type 0} {env : Env} {c : Conn T} where
  pub Ends-begin_or :
      (r : Response V) (k : Unit → Handler V T (Response V))
      → P r (app_of (settle (env.others c.step c.db) env c))
      → Ends P (k tt) env (settle (env.others c.step c.db) env c)
      → Ends P (begin >>= λ opened. return_if (not opened) r >>= k) env c
  Ends-begin_or r k closed opened =
      Ends-begin _ (Ends-return_if _ r k (λ _. closed) (λ e. cc))
        (Ends-return_if _ r k (λ e. cc) (λ _. opened))

  pub Ends-query_or :
      {A : Type 0} (f : Tables → A) (r : Response V) (k : A → Handler V T (Response V))
      → P r (app_of (advance env c))
      → Ends P (k (f (c.uncommitted (env.others c.step c.db)))) env (advance env c)
      → Ends P (query f >>= λ x. or_return x r >>= k) env c
  Ends-query_or f r k failed read =
      Ends-query f _ (Ends-or_return none r k (λ _. failed) (λ x e. cc))
        (Ends-or_return-some r k read)

  pub Ends-execute_or :
      {A : Type 0} (w : (ℕ → ℕ) → ℕ → Write A) (r : Response V) (k : A → Handler V T (Response V))
      → P r (app_of (advance env c))
      → ((x : A) (t : Tables)
          → w (env.uuid c.step) (env.now c.step) (c.uncommitted (env.others c.step c.db))
            ≡ some (x, t)
          → Ends P (k x) env (enqueue (w (env.uuid c.step) (env.now c.step)) env c))
      → Ends P (execute w >>= λ x. or_return x r >>= k) env c
  Ends-execute_or w r k failed wrote =
      Ends-execute w _ (Ends-or_return none r k (λ _. failed) (λ x e. cc))
        (λ x t done. Ends-or_return-some r k (wrote x t done))

  pub Ends-commit_or :
      (r : Response V) (k : Unit → Handler V T (Response V))
      → P r (app_of (settle (env.others c.step c.db) env c))
      → P r (app_of (settle (c.uncommitted (env.others c.step c.db)) env c))
      → Ends P (k tt) env (settle (c.uncommitted (env.others c.step c.db)) env c)
      → Ends P (commit >>= λ done. return_if (not done) r >>= k) env c
  Ends-commit_or r k lost landed committed =
      Ends-commit _ (Ends-return_if _ r k (λ _. lost) (λ e. cc))
        (Ends-return_if _ r k (λ _. landed) (λ e. cc))
        (Ends-return_if _ r k (λ e. cc) (λ _. committed))

  pub Ends-autocommit_or :
      {A : Type 0} (w : (ℕ → ℕ) → ℕ → Write A) (r : Response V) (k : A → Handler V T (Response V))
      → P r (app_of (settle (env.others c.step c.db) env c))
      → P r (
          app_of
            (settle (apply (w (env.uuid c.step) (env.now c.step)) (env.others c.step c.db)) env c))
      → ((x : A) (t : Tables)
          → w (env.uuid c.step) (env.now c.step) (env.others c.step c.db) ≡ some (x, t)
          → Ends P (k x) env (settle t env c))
      → Ends P (autocommit w >>= λ x. or_return x r >>= k) env c
  Ends-autocommit_or w r k lost landed wrote =
      Ends-autocommit w _ (Ends-or_return none r k (λ _. lost) (λ x e. cc))
        (Ends-or_return none r k (λ _. landed) (λ x e. cc))
        (λ x t done. Ends-or_return-some r k (wrote x t done))

pub run-Ends :
    {V T : Type 0} (P : Response V → App T → Type 0) (m : Handler V T (Response V)) (env : Env)
    (a : App T)
    → Ends P m env (start a)
    → P (run m env a).0 (run m env a).1
unfolding run
run-Ends {V} {T} P m env a h = at_end (m env (start a)) h.at
  where
    at_end :
        (x : Outcome V (Response V) × Conn T)
        → At P x
        → P (elim x.0 [ value r ↦ r | reply r ↦ r ]) (app_of x.1)
    at_end (value r, c) h = h
    at_end (reply r, c) h = h
