-- ===== src/Worktree/Streams.antt =====
-- The offline queue's stream of a worktree, and the tool that drops and prunes what worktrees leave
-- (apps/api/src/nats.rs, apps/api/src/bin/migrate.rs). The NATS server is a parameter.
use epistl.Prelude.{
  ℕ, Bool, true, false, Option, none, some, List, [], ◌∷◌, ◌++◌, if◌then◌else◌, codes, filter_map,
}
use epistl.Text.{Text, same, strip_prefix, contains}
use epistl.Text.Numbers.{parse_u64}
use epistl.Worktree.{Process, Result, ok, err, worktree_slug, live_worktree_slugs}
use epistl.Worktree.Prune.{Postgres, drop_worktree_db, prune_worktree_dbs}
pub mod Isolation
pub mod Tools

abbrev pub offline_stream_name : Text
offline_stream_name = codes "EPISTL_OFFLINE_MESSAGES"

abbrev pub offline_stream_subjects : Text
offline_stream_subjects = codes "epistl.offline.*"

abbrev pub default_offline_queue_max_age_secs : ℕ
default_offline_queue_max_age_secs = 86400

abbrev pub stream_name_for : Option Text → Text
stream_name_for none = offline_stream_name
stream_name_for (some slug) = offline_stream_name ++ (codes "_wt_" ++ slug)

abbrev pub stream_subject_for : Option Text → Text
stream_subject_for none = offline_stream_subjects
stream_subject_for (some slug) = codes "epistl.offline." ++ (slug ++ codes ".*")

-- `shown` is how a user's id is written.
unfoldable pub offline_subject : Text → Text
offline_subject shown = codes "epistl.offline." ++ shown

abbrev pub offline_subject_for : Option Text → Text → Text
offline_subject_for none shown = offline_subject shown
offline_subject_for (some slug) shown = codes "epistl.offline." ++ (slug ++ b'.' ∷ shown)

abbrev pub max_age_of : Option ℕ → ℕ
max_age_of none = default_offline_queue_max_age_secs
max_age_of (some secs) = secs

abbrev pub parsed_secs : Option Text → Option ℕ
parsed_secs none = none
parsed_secs (some value) = parse_u64 value

-- In seconds, from the variable `OFFLINE_QUEUE_MAX_AGE_SECS`.
unfoldable pub offline_queue_max_age : Option Text → ℕ
unfolding parse_u64
offline_queue_max_age var = max_age_of (parsed_secs var)

-- The names that are listed before the listing ends or fails.
abbrev pub orphan_stream : Text → List Text → Option Text → Option Text
orphan_stream name active none = none
orphan_stream name active (some slug) = if contains active slug then none else some name

unfoldable pub orphaned_worktree_streams : List Text → List Text → List Text
unfolding strip_prefix contains
orphaned_worktree_streams all_streams active =
    filter_map
      (λ name. orphan_stream name active (strip_prefix (offline_stream_name ++ codes "_wt_") name))
      all_streams

-- A NATS server, if one is configured and can be reached: its streams, and the deletion of one, whose
-- errors are ignored.
pub record JetStream (N : Type 0) : Type 0 where
  pub reachable : N → Bool
  pub stream_names : N → List Text
  pub delete_stream : Text → N → N

module _ (to_lowercase : Text → Text) (p : Process) where
  unfoldable pub effective_stream_name : Text
  unfolding worktree_slug
  effective_stream_name = stream_name_for (worktree_slug to_lowercase p)

  unfoldable pub effective_stream_subjects : List Text
  unfolding worktree_slug
  effective_stream_subjects = stream_subject_for (worktree_slug to_lowercase p) ∷ []

  unfoldable pub effective_offline_subject : Text → Text
  unfolding worktree_slug offline_subject
  effective_offline_subject shown = offline_subject_for (worktree_slug to_lowercase p) shown

  module _ {N : Type 0} (js : JetStream N) where
    unfoldable pub drop_worktree_stream : N → N
    unfolding effective_stream_name same
    drop_worktree_stream n =
        if same effective_stream_name offline_stream_name
        then n
        else js.delete_stream effective_stream_name n

    unfoldable pub delete_streams : List Text → N → N
    delete_streams [] n = n
    delete_streams (name ∷ names) n = delete_streams names (js.delete_stream name n)

    module _ {S : Type 0} (pg : Postgres S) (url : Text) where
      -- Whether the run ends well, the database server and the NATS server after it.
      abbrev pub Outcome : Type 0
      Outcome = Bool × S × N

      abbrev pub after_drop : Result (Unit {0}) × S → N → Outcome
      after_drop (err e, s) n = (false, s, n)
      after_drop (ok done, s) n = (true, s, if js.reachable n then drop_worktree_stream n else n)

      abbrev pub drop_for : Option Text → S → N → Outcome
      drop_for none s n = (false, s, n)
      drop_for (some slug) s n = after_drop (drop_worktree_db pg to_lowercase p url s) n

      unfoldable pub run_drop : S → N → Outcome
      unfolding worktree_slug drop_worktree_db drop_worktree_stream
      run_drop s n = drop_for (worktree_slug to_lowercase p) s n

      unfoldable pub prune_streams : Bool → N → N
      unfolding orphaned_worktree_streams live_worktree_slugs delete_streams
      prune_streams dry_run n =
          if dry_run
          then n
          else delete_streams
              (orphaned_worktree_streams (js.stream_names n) (live_worktree_slugs to_lowercase p)) n

      abbrev pub after_prune : Bool → Result (List (Text × Text)) × S → N → Outcome
      after_prune dry_run (err e, s) n = (false, s, n)
      after_prune dry_run (ok orphans, s) n =
          (true, s, if js.reachable n then prune_streams dry_run n else n)

      unfoldable pub run_prune : Bool → S → N → Outcome
      unfolding prune_worktree_dbs prune_streams
      run_prune dry_run s n =
          after_prune dry_run (prune_worktree_dbs pg to_lowercase p url dry_run s) n
