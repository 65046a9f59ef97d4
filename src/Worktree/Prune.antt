-- ===== src/Worktree/Prune.antt =====
-- Creating, dropping and pruning the databases of worktrees (apps/api/src/db.rs). The driver and the
-- server are a parameter: what a connection, a query for the names and a statement do.
use epistl.Prelude.{
  Bool, false, Option, none, some, List, [], ◌∷◌, ◌++◌, if◌then◌else◌, codes, filter_map, ◌⊎◌, inl,
  inr,
}
use epistl.Text.{Text, same, strip_prefix, contains, double_char}
use epistl.Worktree.{
  Process, SqlError, database, other, invalid_database_url, connect_error, no_worktree_slug, db_op,
  Result, ok, err, wt, worktree_slug, live_worktree_slugs, derive_db_name, extract_db_url_parts,
  maintenance_url, postgres_in,
}

-- `none` is success.
pub record Postgres (S : Type 0) : Type 0 where
  pub connect_to : Text → S → Option SqlError
  pub database_names : Text → S → SqlError ⊎ List Text
  pub execute : Text → Text → S → Option SqlError × S

abbrev pub quoted : Text → Text
quoted name = b'"' ∷ (double_char b'"' name ++ b'"' ∷ [])

unfoldable pub create_sql : Text → Text
unfolding double_char
create_sql name = codes "CREATE DATABASE " ++ quoted name

unfoldable pub drop_sql : Text → Text
unfolding double_char
drop_sql name = codes "DROP DATABASE IF EXISTS " ++ quoted name

unfoldable pub terminate_sql : Text → Text
unfolding double_char
terminate_sql name =
    codes "SELECT pg_terminate_backend(pid) FROM pg_stat_activity WHERE datname = '"
    ++ (double_char b'\'' name ++ codes "' AND pid <> pg_backend_pid()")

abbrev pub orphan : Text → List Text → Option Text → Option (Text × Text)
orphan name active none = none
orphan name active (some slug) = if contains active slug then none else some (name, slug)

unfoldable pub orphaned_worktree_dbs : List Text → Text → List Text → List (Text × Text)
unfolding strip_prefix contains
orphaned_worktree_dbs all_dbs base_db active =
    filter_map (λ name. orphan name active (strip_prefix (base_db ++ wt) name)) all_dbs

module _ {S : Type 0} (pg : Postgres S) where
  open pg use {connect_to, database_names, execute}

  abbrev pub unless_refused : {A : Type 0} → Option SqlError → (S → Result A × S) → S → Result A × S
  unless_refused none next s = next s
  unless_refused (some e) next s = (err (connect_error e), s)

  -- The later steps of a function run if the connection is made.
  abbrev pub connected : {A : Type 0} → Text → (S → Result A × S) → S → Result A × S
  connected url next s = unless_refused (connect_to url s) next s

  abbrev pub duplicate : SqlError → Bool
  duplicate (database (some code)) = same code (codes "42P04")
  duplicate (database none) = false
  duplicate other = false

  abbrev pub created : Option SqlError × S → Result (Unit {0}) × S
  created (none, s) = (ok tt, s)
  created (some e, s) = (if duplicate e then ok tt else err (db_op e), s)

  abbrev pub create_named : Option (Text × Text × Text) → Option Text → S → Result (Unit {0}) × S
  create_named none maint s = (err invalid_database_url, s)
  create_named (some parts) none s = (err invalid_database_url, s)
  create_named (some (before, name, suffix)) (some maint) s =
      connected maint (λ s'. created (execute maint (create_sql name) s')) s

  unfoldable pub create_db_if_missing : Text → S → Result (Unit {0}) × S
  unfolding extract_db_url_parts maintenance_url create_sql same
  create_db_if_missing url = create_named (extract_db_url_parts url) (maintenance_url url)

  abbrev pub dropped : Option SqlError × S → Result (Unit {0}) × S
  dropped (none, s) = (ok tt, s)
  dropped (some e, s) = (err (db_op e), s)

  abbrev pub drop_derived : Text → Option (Text × Text × Text) → S → Result (Unit {0}) × S
  drop_derived slug none s = (err invalid_database_url, s)
  drop_derived slug (some (before, base_db, suffix)) s =
      let derived = derive_db_name base_db slug in
      let maint = postgres_in (before, base_db, suffix) in
      if same derived base_db
      then (err no_worktree_slug, s)
      else connected maint (λ s'. dropped (execute maint (drop_sql derived) s')) s

  unfoldable pub drop_worktree_db_for_slug : Option Text → Text → S → Result (Unit {0}) × S
  unfolding extract_db_url_parts derive_db_name drop_sql same
  drop_worktree_db_for_slug none url s = (err no_worktree_slug, s)
  drop_worktree_db_for_slug (some slug) url s = drop_derived slug (extract_db_url_parts url) s

  unfoldable pub drop_worktree_db : (Text → Text) → Process → Text → S → Result (Unit {0}) × S
  unfolding worktree_slug drop_worktree_db_for_slug
  drop_worktree_db to_lowercase p = drop_worktree_db_for_slug (worktree_slug to_lowercase p)

  abbrev pub unless_failed :
      Option SqlError × S → (S → Result (Unit {0}) × S) → Result (Unit {0}) × S
  unless_failed (some e, s) next = (err (db_op e), s)
  unless_failed (none, s) next = next s

  -- The loop of `prune_worktree_dbs`: an error of the termination is ignored, one of the drop ends it.
  unfoldable pub drop_orphans : Text → List (Text × Text) → S → Result (Unit {0}) × S
  unfolding terminate_sql drop_sql
  drop_orphans maint [] s = (ok tt, s)
  drop_orphans maint ((name, slug) ∷ orphans) s =
      let (ignored, s') = execute maint (terminate_sql name) s in
      unless_failed (execute maint (drop_sql name) s') (drop_orphans maint orphans)

  abbrev pub with_orphans :
      List (Text × Text) → Result (Unit {0}) × S → Result (List (Text × Text)) × S
  with_orphans orphans (ok done, s) = (ok orphans, s)
  with_orphans orphans (err e, s) = (err e, s)

  abbrev pub prune_orphans : Bool → Text → List (Text × Text) → S → Result (List (Text × Text)) × S
  prune_orphans dry_run maint orphans s =
      if dry_run then (ok orphans, s) else with_orphans orphans (drop_orphans maint orphans s)

  abbrev pub prune_listed :
      Bool → Text → Text → List Text → SqlError ⊎ List Text → S → Result (List (Text × Text)) × S
  prune_listed dry_run maint base_db active (inl e) s = (err (db_op e), s)
  prune_listed dry_run maint base_db active (inr all_dbs) s =
      prune_orphans dry_run maint (orphaned_worktree_dbs all_dbs base_db active) s

  abbrev pub prune_parts :
      Bool → List Text → Option (Text × Text × Text) → S → Result (List (Text × Text)) × S
  prune_parts dry_run active none s = (err invalid_database_url, s)
  prune_parts dry_run active (some (before, base_db, suffix)) s =
      let maint = postgres_in (before, base_db, suffix) in
      connected maint (λ s'. prune_listed dry_run maint base_db active (database_names maint s') s')
        s

  unfoldable pub prune_worktree_dbs :
      (Text → Text) → Process → Text → Bool → S → Result (List (Text × Text)) × S
  unfolding extract_db_url_parts live_worktree_slugs orphaned_worktree_dbs drop_orphans
  prune_worktree_dbs to_lowercase p url dry_run =
      prune_parts dry_run (live_worktree_slugs to_lowercase p) (extract_db_url_parts url)
