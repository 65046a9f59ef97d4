-- ===== src/Worktree/Streams/Tools.antt =====
-- What the tool of apps/api/src/bin/migrate.rs leaves alone.
use epistl.Prelude.{
  ◌≡◌, ◌⊎◌, refl, ap, ◌∙◌, true, false, not, ◌&&◌, Option, none, some, List, [], ◌∷◌, ◌++◌, arith,
  inl, inr, Option-cases, Bool-cases, cons?,
}
use epistl.Text.{Text, contains, strip_prefix}
use epistl.Text.Laws.{strip_prefix-append}
use epistl.Worktree.{
  Process, Result, ok, err, worktree_slug, wt, extract_db_url_parts, live_worktree_slugs, SqlError,
  postgres_in,
}
use epistl.Worktree.Orphans.{names_of, contains-orphaned, contains-orphaned_none}
use epistl.Worktree.Prune.{
  Postgres, orphaned_worktree_dbs, orphan, prune_worktree_dbs, prune_parts, prune_listed,
}
use epistl.Worktree.Streams.{
  effective_stream_name, orphaned_worktree_streams, orphan_stream, offline_stream_name, JetStream,
  run_prune, after_prune, prune_streams,
}

module _ (active : List Text) where
  -- The streams are chosen as databases of a base named after the stream would be.
  names-orphaned :
      (all_streams : List Text)
      → orphaned_worktree_streams all_streams active
        ≡ names_of (orphaned_worktree_dbs all_streams offline_stream_name active)
  unfolding orphaned_worktree_streams orphaned_worktree_dbs
  names-orphaned [] = refl
  names-orphaned (name ∷ names) =
      same_choice (strip_prefix (offline_stream_name ++ wt) name) _ _ (names-orphaned names)
    where
      same_choice :
          (o : Option Text) (xs : List Text) (ys : List (Text × Text))
          → xs ≡ names_of ys
          → cons? (orphan_stream name active o) xs ≡ names_of (cons? (orphan name active o) ys)
      same_choice none xs ys e = e
      same_choice (some slug) xs ys e = elim (Bool-cases (contains active slug)) [
        | inl live ↦ rw live e
        | inr gone ↦ rw gone (ap (λ r. name ∷ r) e)
      ]

-- The stream of a worktree is taken for a gone worktree's exactly if it is listed and its slug is not
-- active, however long the slug is; the stream of the primary checkout never is.
pub orphaned_worktree_streams-active :
    (to_lowercase : Text → Text) (p : Process) (slug : Text) (active all_streams : List Text)
    → worktree_slug to_lowercase p ≡ some slug
    → (contains
          (orphaned_worktree_streams all_streams active)
          (effective_stream_name to_lowercase p)
        ≡ (contains all_streams (effective_stream_name to_lowercase p)
            && not (contains active slug)))
      × (contains (orphaned_worktree_streams all_streams active) offline_stream_name ≡ false)
unfolding effective_stream_name
orphaned_worktree_streams-active to_lowercase p slug active all_streams h = (
  rw (names-orphaned active all_streams, h)
      (contains-orphaned offline_stream_name active (offline_stream_name ++ (wt ++ slug))
        all_streams (strip_prefix-append (offline_stream_name ++ wt) slug)),
  rw (names-orphaned active all_streams)
      (contains-orphaned_none offline_stream_name active offline_stream_name all_streams refl),
)

module _ {S N : Type 0} (pg : Postgres S) (js : JetStream N) (to_lowercase : Text → Text)
    (p : Process) (url : Text) where
  parts_dry :
      (active : List Text) (o : Option (Text × Text × Text)) (s : S)
      → (prune_parts pg true active o s).1 ≡ s
  parts_dry active none s = refl
  parts_dry active (some (before, base, suffix)) s =
      let maint = postgres_in (before, base, suffix) in
      elim (Option-cases (pg.connect_to maint s)) [
        | inl reached ↦ rw reached (listed (pg.database_names maint s))
        | inr (e, refused) ↦ rw refused refl
      ]
    where
      listed :
          (r : SqlError ⊎ List Text)
          → (prune_listed pg true (postgres_in (before, base, suffix)) base active r s).1 ≡ s
      listed (inl e) = refl
      listed (inr all_dbs) = refl

  after_dry :
      (r : Result (List (Text × Text)) × S) (n : N)
      → ((after_prune to_lowercase p js pg url true r n).1 ≡ r.1)
        × ((after_prune to_lowercase p js pg url true r n).2 ≡ n)
  unfolding prune_streams
  after_dry (err e, s) n = (refl, refl)
  after_dry (ok orphans, s) n = (refl, ground arith)

  -- A dry run of the prune changes neither server, whether it succeeds or fails.
  pub run_prune_dry :
      (s : S) (n : N)
      → ((run_prune to_lowercase p js pg url true s n).1 ≡ s)
        × ((run_prune to_lowercase p js pg url true s n).2 ≡ n)
  unfolding run_prune prune_worktree_dbs
  run_prune_dry s n =
      let (same_db, same_streams) = after_dry (prune_worktree_dbs pg to_lowercase p url true s) n in
      (
        same_db ∙ parts_dry (live_worktree_slugs to_lowercase p) (extract_db_url_parts url) s,
        same_streams,
      )
