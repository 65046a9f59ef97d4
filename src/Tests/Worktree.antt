-- ===== src/Tests/Worktree.antt =====
-- Concrete runs of the worktree tools (apps/api/src/db.rs, apps/api/src/nats.rs).
use epistl.Prelude.{
  ◌≡◌, ◌≢◌, ◌≤◌, ◌-◌, ◌↔◌, refl, true, false, not, ◌&&◌, none, some, List, [], ◌∷◌, ◌++◌, inr,
  codes, arith, take, retain,
}
use epistl.Text.{Text, contains, byte_len, strip_prefix, same}
use epistl.Worktree.{
  Process, ok, wt, is_slug_char, worktree_slug, derive_db_name, extract_db_url_parts,
  effective_database_url, maintenance_url,
}
use epistl.Worktree.Names.{IsSlug, derive_db_name-byte_len}
use epistl.Worktree.Orphans.{names_of, orphaned-derive_db_name}
use epistl.Worktree.Prune.{
  Postgres, orphaned_worktree_dbs, prune_worktree_dbs, create_sql, drop_sql,
}
use epistl.Worktree.Statements.{
  read_quoted, read_quoted-drop_sql, after, statements, prune_worktree_dbs-after,
}
use epistl.Worktree.Streams.{JetStream, effective_stream_subjects, effective_offline_subject}
use epistl.Worktree.Streams.Isolation.{accepted, effective_offline_subject-accepted}

abbrev url : Text
url = codes "postgres://u@h/epistl?ssl=1"

-- A checkout below `.claude/worktrees`, and the primary checkout.
abbrev in_worktree : Process
in_worktree = record {
  worktree_slug_var = none;
  database_url_var = some url;
  show_toplevel =
      some (record { success = true; stdout = some (codes "/r/.claude/worktrees/fix-1\n") });
  worktree_list = some (codes "worktree /r\n\nworktree /r/.claude/worktrees/fix-1\n");
}

abbrev primary : Process
primary = record in_worktree { show_toplevel = none }

abbrev unchanged : Text → Text
unchanged s = s

slug_in_worktree : worktree_slug unchanged in_worktree ≡ some (codes "fix_1")
unfolding worktree_slug
slug_in_worktree = refl

url_in_worktree :
    effective_database_url unchanged in_worktree ≡ ok (codes "postgres://u@h/epistl_wt_fix_1?ssl=1")
unfolding effective_database_url
url_in_worktree = refl

parts_of_url :
    extract_db_url_parts url ≡ some (codes "postgres://u@h/", codes "epistl", codes "?ssl=1")
unfolding extract_db_url_parts
parts_of_url = refl

short_base : byte_len (codes "epistl") ≤ 59
unfolding byte_len
short_base = omega arith

plain-IsSlug : IsSlug (codes "fix_1")
unfolding is_slug_char
plain-IsSlug = refl

derive_db_name-byte_len_example :
    (byte_len (derive_db_name (codes "epistl") (codes "fix_1")) ≤ 63)
    × (derive_db_name (codes "epistl") (codes "fix_1") ≢ codes "epistl")
    × (strip_prefix (codes "epistl" ++ wt) (derive_db_name (codes "epistl") (codes "fix_1"))
        ≡ some (take (59 - byte_len (codes "epistl")) (codes "fix_1")))
derive_db_name-byte_len_example =
    derive_db_name-byte_len (codes "epistl") (codes "fix_1") short_base plain-IsSlug

abbrev listed : List Text
listed = codes "epistl" ∷ codes "epistl_wt_fix_1" ∷ codes "epistl_wt_old" ∷ []

orphaned-derive_db_name_example :
    (contains
        (names_of (orphaned_worktree_dbs listed (codes "epistl") (codes "fix_1" ∷ [])))
        (derive_db_name (codes "epistl") (codes "old"))
      ≡ (contains listed (derive_db_name (codes "epistl") (codes "old"))
          && not (
              contains (codes "fix_1" ∷ []) (take (59 - byte_len (codes "epistl")) (codes "old")))))
    × (contains
          (names_of (orphaned_worktree_dbs listed (codes "epistl") (codes "fix_1" ∷ [])))
          (codes "epistl")
        ≡ false)
orphaned-derive_db_name_example =
    orphaned-derive_db_name (codes "epistl") (codes "old") (codes "fix_1" ∷ []) listed

read_quoted-drop_sql_example :
    ((t : Text) × (strip_prefix (codes "DROP DATABASE IF EXISTS \"") (drop_sql (codes "a\"b"))
        ≡ some t)
      × (read_quoted b'"' t ≡ some (codes "a\"b", [])))
    × ((t : Text) × (strip_prefix (codes "CREATE DATABASE \"") (create_sql (codes "a\"b")) ≡ some t)
        × (read_quoted b'"' t ≡ some (codes "a\"b", [])))
read_quoted-drop_sql_example = read_quoted-drop_sql (codes "a\"b")

-- A server that keeps the statements sent to it, the last one first.
abbrev Log : Type 0
Log = List Text

abbrev logging : Postgres Log
logging = record {
  connect_to = λ maint log. none;
  database_names = λ maint log. inr listed;
  execute = λ maint sql log. (none, sql ∷ log);
}

pruned_log : prune_worktree_dbs logging unchanged in_worktree url false [] ≡ (
  ok ((codes "epistl_wt_old", codes "old") ∷ []),
  codes "DROP DATABASE IF EXISTS \"epistl_wt_old\""
      ∷ codes
          "SELECT pg_terminate_backend(pid) FROM pg_stat_activity WHERE datname = 'epistl_wt_old' AND pid <> pg_backend_pid()"
      ∷ [],
)
unfolding prune_worktree_dbs
pruned_log = refl

prune_worktree_dbs-after_example :
    (maint : Text) × (maintenance_url url ≡ some maint)
    × ((codes "DROP DATABASE IF EXISTS \"epistl_wt_old\""
          ∷ codes
              "SELECT pg_terminate_backend(pid) FROM pg_stat_activity WHERE datname = 'epistl_wt_old' AND pid <> pg_backend_pid()"
          ∷ [])
        ≡ after logging maint (statements logging ((codes "epistl_wt_old", codes "old") ∷ [])) [])
    × (prune_worktree_dbs logging unchanged in_worktree url true []
        ≡ (ok ((codes "epistl_wt_old", codes "old") ∷ []), []))
prune_worktree_dbs-after_example =
    prune_worktree_dbs-after logging unchanged in_worktree url [] _ _ pruned_log

effective_offline_subject-accepted_example :
    (accepted
        (effective_stream_subjects unchanged primary)
        (effective_offline_subject unchanged in_worktree (codes "7e-5a"))
      ≡ true)
    ↔ (worktree_slug unchanged in_worktree ≡ worktree_slug unchanged primary)
effective_offline_subject-accepted_example =
    effective_offline_subject-accepted (codes "7e-5a") refl unchanged in_worktree primary

abbrev streams : JetStream (List Text)
streams = record {
  reachable = λ n. true;
  stream_names = λ n. n;
  delete_stream = λ name n. retain (λ x. not (same x name)) n;
}
