-- ===== src/Worktree.antt =====
-- Which worktree the process runs in, and the database name and URL that it then uses
-- (apps/api/src/db.rs).
use epistl.Prelude.{
  ℕ, ◌+◌, ◌-◌, Bool, true, false, not, ◌||◌, ◌&&◌, Option, none, some, List, [], ◌∷◌, ◌++◌, map,
  leb, ltb, ◌==◌, if◌then◌else◌, length, take, codes, filter_map,
}
use epistl.Text.{Text, is_empty, byte_len, strip_prefix, cut, before_char, trim, contains}
use epistl.Text.Lines.{lines}
pub mod Prune
pub mod Names
pub mod Urls
pub mod Orphans
pub mod Statements
pub mod Streams

-- What `git` printed, if it ran: whether it succeeded, and its output where that is UTF-8.
pub record GitOutput : Type 0 where
  pub success : Bool
  pub stdout : Option Text

-- What the process reads from outside: two variables of its environment, and two runs of `git`. The
-- output of `git worktree list` is decoded with replacement characters.
pub record Process : Type 0 where
  pub worktree_slug_var : Option Text
  pub database_url_var : Option Text
  pub show_toplevel : Option GitOutput
  pub worktree_list : Option Text

-- An error of the driver; one that the server reports has a code.
pub data SqlError : Type 0 where
  database : Option Text → SqlError
  other : SqlError

pub data DbError : Type 0 where
  missing_database_url : DbError
  invalid_database_url : DbError
  connect_error : SqlError → DbError
  no_worktree_slug : DbError
  db_op : SqlError → DbError

pub data Result (A : Type 0) : Type 0 where
  ok : A → Result A
  err : DbError → Result A

infixl 5 ◌>>=◌
abbrev pub ◌>>=◌ : {A B : Type 0} → Result A → (A → Result B) → Result B
ok a >>= f = f a
err e >>= f = err e

abbrev pub ok_or : {A : Type 0} → Option A → DbError → Result A
ok_or none e = err e
ok_or (some a) e = ok a

abbrev pub max_pg_identifier_len : ℕ
max_pg_identifier_len = 63

abbrev pub marker : Text
marker = codes "/.claude/worktrees/"

abbrev pub wt : Text
wt = codes "_wt_"

unfoldable pub is_slug_char : ℕ → Bool
is_slug_char c = (leb b'a' c && leb c b'z') || (leb b'0' c && leb c b'9') || c == b'_'

unfoldable pub slug_char : ℕ → ℕ
unfolding is_slug_char
slug_char c = if is_slug_char c then c else b'_'

-- `to_lowercase` is Unicode's.
module _ (to_lowercase : Text → Text) where
  unfoldable pub sanitize_slug : Text → Text
  unfolding slug_char
  sanitize_slug slug = map slug_char (to_lowercase slug)

  abbrev pub slug_of_name : Text → Option Text
  slug_of_name name = if is_empty name then none else some (sanitize_slug name)

  abbrev pub slug_after : Option (Text × Text) → Option Text
  slug_after none = none
  slug_after (some (before, after)) = slug_of_name (trim (before_char b'/' after))

  unfoldable pub slug_from_toplevel : Text → Option Text
  unfolding sanitize_slug cut before_char trim is_empty
  slug_from_toplevel toplevel = slug_after (cut marker toplevel)

  abbrev pub slug_of_stdout : Option Text → Option Text
  slug_of_stdout none = none
  slug_of_stdout (some stdout) = slug_from_toplevel (trim stdout)

  abbrev pub slug_from_git : Option GitOutput → Option Text
  slug_from_git none = none
  slug_from_git (some output) = if output.success then slug_of_stdout output.stdout else none

  abbrev pub slug_from_var : Option Text → Option Text
  slug_from_var none = none
  slug_from_var (some slug) = slug_of_name slug

  abbrev pub or_else : Option Text → Option Text → Option Text
  or_else none later = later
  or_else (some slug) later = some slug

  unfoldable pub worktree_slug : Process → Option Text
  unfolding sanitize_slug slug_from_toplevel trim is_empty
  worktree_slug p = or_else (slug_from_var p.worktree_slug_var) (slug_from_git p.show_toplevel)

  abbrev pub slug_of_line : Option Text → Option Text
  slug_of_line none = none
  slug_of_line (some rest) = slug_after (cut marker rest)

  abbrev pub listing : Option Text → Text
  listing none = []
  listing (some text) = text

  unfoldable pub live_worktree_slugs : Process → List Text
  unfolding sanitize_slug cut before_char trim is_empty lines strip_prefix
  live_worktree_slugs p =
      filter_map (λ line. slug_of_line (strip_prefix (codes "worktree ") line))
        (lines (listing p.worktree_list))

-- A slug is ASCII, so its bytes are its code points, and it is cut at one of them.
unfoldable pub derive_db_name : Text → Text → Text
unfolding byte_len
derive_db_name base_db slug =
    let before = base_db ++ wt in before ++ take (max_pg_identifier_len - byte_len before) slug

abbrev pub find_scheme : Option Text → Option Text → Option (Text × Text)
find_scheme (some rest) later = some (codes "postgresql://", rest)
find_scheme none none = none
find_scheme none (some rest) = some (codes "postgres://", rest)

abbrev pub split_query : Text → Option (Text × Text) → Text × Text
split_query after_slash none = (after_slash, [])
split_query after_slash (some (name, query)) = (name, b'?' ∷ query)

abbrev pub name_parts : Text → Text → Option (Text × Text) → Option (Text × Text × Text)
name_parts scheme rest none = none
name_parts scheme rest (some (authority, after_slash)) =
    let (name, suffix) = split_query after_slash (cut (b'?' ∷ []) after_slash) in
    some (scheme ++ (authority ++ b'/' ∷ []), name, suffix)

abbrev pub url_parts : Option (Text × Text) → Option (Text × Text × Text)
url_parts none = none
url_parts (some (scheme, rest)) = name_parts scheme rest (cut (b'/' ∷ []) rest)

unfoldable pub extract_db_url_parts : Text → Option (Text × Text × Text)
unfolding strip_prefix cut
extract_db_url_parts url = url_parts (
    find_scheme (strip_prefix (codes "postgresql://") url) (strip_prefix (codes "postgres://") url))

abbrev pub url_for : Text → Text → Option (Text × Text × Text) → Result Text
url_for url slug none = err invalid_database_url
url_for url slug (some (before, base_db, suffix)) =
    ok (before ++ (derive_db_name base_db slug ++ suffix))

abbrev pub url_for_slug : Text → Option Text → Result Text
url_for_slug url none = ok url
url_for_slug url (some slug) = url_for url slug (extract_db_url_parts url)

unfoldable pub effective_database_url : (Text → Text) → Process → Result Text
unfolding worktree_slug extract_db_url_parts derive_db_name
effective_database_url to_lowercase p = do
  url ← ok_or p.database_url_var missing_database_url
  url_for_slug url (worktree_slug to_lowercase p)

abbrev pub postgres_in : Text × Text × Text → Text
postgres_in (before, name, suffix) = before ++ (codes "postgres" ++ suffix)

abbrev pub maintenance_of : Option (Text × Text × Text) → Option Text
maintenance_of none = none
maintenance_of (some parts) = some (postgres_in parts)

unfoldable pub maintenance_url : Text → Option Text
unfolding extract_db_url_parts
maintenance_url url = maintenance_of (extract_db_url_parts url)
