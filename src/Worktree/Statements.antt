-- ===== src/Worktree/Statements.antt =====
-- Which statements the tools send to the server (apps/api/src/db.rs).
use epistl.Prelude.{
  ℕ, ◌≡◌, refl, true, false, Option, none, some, List, [], ◌∷◌, ◌++◌, Option-cases, inl, inr, ◌⊎◌,
  if◌then◌else◌, codes, ◌==◌, ==_refl, eq_of_==, Bool-cases,
}
use epistl.Text.{Text, double_char, strip_prefix}
use epistl.Worktree.{
  Process, Result, ok, err, SqlError, maintenance_url, maintenance_of, postgres_in,
  extract_db_url_parts, live_worktree_slugs,
}
use epistl.Worktree.Prune.{
  Postgres, create_sql, drop_sql, terminate_sql, prune_worktree_dbs, drop_orphans, unless_failed,
  prune_parts, prune_listed, with_orphans, orphaned_worktree_dbs,
}

abbrev then_read : ℕ → Option (Text × Text) → Option (Text × Text)
then_read c none = none
then_read c (some (name, rest)) = some (c ∷ name, rest)

-- How SQL reads what stands behind an opening quote: two quotes are one character, one ends it.
unfoldable pub read_quoted : ℕ → Text → Option (Text × Text)
read_quoted q [] = none
read_quoted q (c ∷ []) = if c == q then some ([], []) else none
read_quoted q (c ∷ d ∷ s) =
    let pair = then_read q (read_quoted q s) in
    let next = then_read c (read_quoted q (d ∷ s)) in
    if c == q then (if d == q then pair else some ([], d ∷ s)) else next

read_pair :
    (q : ℕ) (s : Text) {r : Text × Text}
    → read_quoted q s ≡ some r
    → read_quoted q (q ∷ q ∷ s) ≡ some (q ∷ r.0, r.1)
unfolding read_quoted
read_pair q s e = simp (==_refl q, e)

read_other :
    (q c : ℕ) (s : Text) {r : Text × Text}
    → (c == q) ≡ false
    → read_quoted q s ≡ some r
    → read_quoted q (c ∷ s) ≡ some (c ∷ r.0, r.1)
unfolding read_quoted
read_other q c [] h e = cc
read_other q c (d ∷ s) h e = rw (h, e) refl

read_quoted-double_char :
    (q : ℕ) (name : Text) → read_quoted q (double_char q name ++ q ∷ []) ≡ some (name, [])
unfolding double_char read_quoted
read_quoted-double_char q [] = rw (==_refl q) refl
read_quoted-double_char q (c ∷ name) =
    let later = read_quoted-double_char q name in
    elim (Bool-cases (c == q)) [
      | inl quote ↦
          rw (eq_of_== c q quote, ==_refl q) (read_pair q (double_char q name ++ q ∷ []) later)
      | inr plain ↦ rw plain (read_other q c (double_char q name ++ q ∷ []) plain later)
    ]

-- The statements that create and drop a database name that database and nothing more, whatever
-- characters its name has.
pub read_quoted-drop_sql :
    (name : Text)
    → ((t : Text) × (strip_prefix (codes "DROP DATABASE IF EXISTS \"") (drop_sql name) ≡ some t)
        × (read_quoted b'"' t ≡ some (name, [])))
      × ((t : Text) × (strip_prefix (codes "CREATE DATABASE \"") (create_sql name) ≡ some t)
          × (read_quoted b'"' t ≡ some (name, [])))
unfolding drop_sql create_sql strip_prefix
read_quoted-drop_sql name =
    ((_, refl, read_quoted-double_char b'"' name), (_, refl, read_quoted-double_char b'"' name))

module _ {S : Type 0} (pg : Postgres S) where
  -- The server after a list of statements, whatever each of them answers.
  abbrev pub after : Text → List Text → S → S
  after url [] s = s
  after url (sql ∷ rest) s = after url rest (pg.execute url sql s).1

  abbrev pub statements : List (Text × Text) → List Text
  statements [] = []
  statements ((name, slug) ∷ orphans) = terminate_sql name ∷ drop_sql name ∷ statements orphans

  succeeded :
      (r : Option SqlError × S) (next : S → Result (Unit {0}) × S) (s' : S)
      → unless_failed pg r next ≡ (ok tt, s')
      → next r.1 ≡ (ok tt, s')
  succeeded (none, s) next s' h = h
  succeeded (some e, s) next s' h = cc

  drop_orphans-after :
      (maint : Text) (orphans : List (Text × Text)) (s s' : S)
      → drop_orphans pg maint orphans s ≡ (ok tt, s')
      → s' ≡ after maint (statements orphans) s
  unfolding drop_orphans
  drop_orphans-after maint [] s s' h = cc
  drop_orphans-after maint ((name, slug) ∷ orphans) s s' h =
      let s'' = (pg.execute maint (terminate_sql name) s).1 in
      drop_orphans-after maint orphans (pg.execute maint (drop_sql name) s'').1 s'
        (succeeded (pg.execute maint (drop_sql name) s'') (drop_orphans pg maint orphans) s' h)

  dropped-after :
      (maint : Text) (orphans found : List (Text × Text)) (r : Result (Unit {0}) × S) (s s' : S)
      → drop_orphans pg maint found s ≡ r
      → with_orphans pg found r ≡ (ok orphans, s')
      → (s' ≡ after maint (statements orphans) s) × (found ≡ orphans)
  dropped-after maint orphans found (ok done, s'') s s' e h =
      let same_list : found ≡ orphans = cc h in
      (rw (← same_list) (drop_orphans-after maint found s s' (cc (e, h))), same_list)
  dropped-after maint orphans found (err x, s'') s s' e h = cc

  module _ (active : List Text) (s s' : S) (orphans : List (Text × Text)) where
    listed-after :
        (maint base : Text) (r : SqlError ⊎ List Text)
        → prune_listed pg false maint base active r s ≡ (ok orphans, s')
        → (s' ≡ after maint (statements orphans) s)
          × (prune_listed pg true maint base active r s ≡ (ok orphans, s))
    listed-after maint base (inl e) h = cc
    listed-after maint base (inr all_dbs) h =
        let (sent, found) =
          dropped-after maint orphans (orphaned_worktree_dbs all_dbs base active) _ s s' refl h in
        (sent, rw found refl)

    parts-after :
        (o : Option (Text × Text × Text))
        → prune_parts pg false active o s ≡ (ok orphans, s')
        → (maint : Text) × (maintenance_of o ≡ some maint)
          × (s' ≡ after maint (statements orphans) s)
          × (prune_parts pg true active o s ≡ (ok orphans, s))
    parts-after none h = cc
    parts-after (some (before, base, suffix)) h =
        let maint = postgres_in (before, base, suffix) in
        elim (Option-cases (pg.connect_to maint s)) [
          | inl reached ↦
              let (sent, dry) =
                listed-after maint base (pg.database_names maint s) (rw reached at h) in
              (maint, refl, sent, rw reached dry)
          | inr (e, refused) ↦ cc (rw refused at h)
        ]

  -- A prune that succeeds has sent, in order, for each orphan that it returns the statement that ends its
  -- connections and the one that drops it, and no other; a dry run of it returns the same orphans
  -- and sends none.
  pub prune_worktree_dbs-after :
      (to_lowercase : Text → Text) (p : Process) (url : Text) (s s' : S)
      (orphans : List (Text × Text))
      → prune_worktree_dbs pg to_lowercase p url false s ≡ (ok orphans, s')
      → (maint : Text) × (maintenance_url url ≡ some maint)
        × (s' ≡ after maint (statements orphans) s)
        × (prune_worktree_dbs pg to_lowercase p url true s ≡ (ok orphans, s))
  unfolding prune_worktree_dbs maintenance_url
  prune_worktree_dbs-after to_lowercase p url s s' orphans h =
      parts-after (live_worktree_slugs to_lowercase p) s s' orphans (extract_db_url_parts url) h
