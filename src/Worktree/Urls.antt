-- ===== src/Worktree/Urls.antt =====
-- Taking a database URL apart and putting another database's name in (apps/api/src/db.rs).
use mathlib.Core.List.{append_assoc, append-nil}
use epistl.Prelude.{◌≡◌, refl, sym, ◌⊎◌, Option, none, some, [], ◌∷◌, ◌++◌, inl, inr, codes}
use epistl.Text.{Text, cut, strip_prefix}
use epistl.Text.Laws.{
  Lacks, cut-append, cut-none, cut-Lacks, Lacks-cut, append-cut, append-strip_prefix,
}
use epistl.Worktree.{
  extract_db_url_parts, url_parts, find_scheme, name_parts, split_query, ok, effective_database_url,
  Process, derive_db_name, worktree_slug,
}
use epistl.Worktree.Names.{worktree_slug-IsSlug, Lacks-derive_db_name}

abbrev Suffix : Text → Type 0
Suffix s = (s ≡ []) ⊎ ((q : Text) × (s ≡ b'?' ∷ q))

-- What the parts of a URL are.
record Parts (url before name suffix : Text) : Type 0 where
  scheme : Text
  authority : Text
  known : (scheme ≡ codes "postgresql://") ⊎ (scheme ≡ codes "postgres://")
  no_slash : Lacks b'/' authority
  before_eq : before ≡ scheme ++ (authority ++ b'/' ∷ [])
  no_query : Lacks b'?' name
  tail : Suffix suffix
  whole : url ≡ before ++ (name ++ suffix)

split_query_lem :
    (s : Text) (o : Option (Text × Text))
    → cut (b'?' ∷ []) s ≡ o
    → Lacks b'?' (split_query s o).0
      × Suffix (split_query s o).1
      × (s ≡ (split_query s o).0 ++ (split_query s o).1)
split_query_lem s none e = (Lacks-cut b'?' s e, inl refl, sym (append-nil s))
split_query_lem s (some (name, query)) e =
    (cut-Lacks b'?' s name query e, inr (query, refl), append-cut (b'?' ∷ []) s name query e)

split_query-append :
    (name suffix : Text)
    → Lacks b'?' name
    → Suffix suffix
    → split_query (name ++ suffix) (cut (b'?' ∷ []) (name ++ suffix)) ≡ (name, suffix)
split_query-append name suffix l (inl e) = rw (e, append-nil name, cut-none b'?' name l) refl
split_query-append name suffix l (inr (q, e)) = rw (e, cut-append b'?' name q l) refl

regroup :
    (scheme authority path : Text)
    → (scheme ++ (authority ++ b'/' ∷ [])) ++ path ≡ scheme ++ (authority ++ b'/' ∷ path)
regroup scheme authority path = simp append_assoc

module _ (url : Text) where
  name_parts_lem :
      (scheme rest before name suffix : Text) (o : Option (Text × Text))
      → cut (b'/' ∷ []) rest ≡ o
      → (scheme ≡ codes "postgresql://") ⊎ (scheme ≡ codes "postgres://")
      → url ≡ scheme ++ rest
      → name_parts scheme rest o ≡ some (before, name, suffix)
      → Parts url before name suffix
  name_parts_lem scheme rest before name suffix none e k w h = cc
  name_parts_lem scheme rest before name suffix (some (authority, path)) e k w h =
      let (clean, tail, rejoined) = split_query_lem path _ refl in
      let name_eq : (split_query path (cut (b'?' ∷ []) path)).0 ≡ name = cc h in
      let suffix_eq : (split_query path (cut (b'?' ∷ []) path)).1 ≡ suffix = cc h in
      let before_eq : before ≡ scheme ++ (authority ++ b'/' ∷ []) = cc h in
      record {
        scheme = scheme;
        authority = authority;
        known = k;
        no_slash = cut-Lacks b'/' rest authority path e;
        before_eq = before_eq;
        no_query = rw name_eq at clean;
        tail = rw suffix_eq at tail;
        whole = cc (
          w,
          append-cut (b'/' ∷ []) rest authority path e,
          rejoined,
          name_eq,
          suffix_eq,
          before_eq,
          regroup scheme authority (name ++ suffix),
        );
      }

  url_parts_lem :
      (before name suffix : Text) (o u : Option Text)
      → strip_prefix (codes "postgresql://") url ≡ o
      → strip_prefix (codes "postgres://") url ≡ u
      → url_parts (find_scheme o u) ≡ some (before, name, suffix)
      → Parts url before name suffix
  url_parts_lem before name suffix (some rest) u e f h =
      name_parts_lem _ rest before name suffix _ refl (inl refl) (append-strip_prefix _ url rest e)
        h
  url_parts_lem before name suffix none (some rest) e f h =
      name_parts_lem _ rest before name suffix _ refl (inr refl) (append-strip_prefix _ url rest f)
        h
  url_parts_lem before name suffix none none e f h = cc

  Parts-extract :
      (before name suffix : Text)
      → extract_db_url_parts url ≡ some (before, name, suffix)
      → Parts url before name suffix
  unfolding extract_db_url_parts
  Parts-extract before name suffix h = url_parts_lem before name suffix _ _ refl refl h

url_parts-append :
    (scheme authority name suffix : Text)
    → (scheme ≡ codes "postgresql://") ⊎ (scheme ≡ codes "postgres://")
    → Lacks b'/' authority
    → Lacks b'?' name
    → Suffix suffix
    → extract_db_url_parts (scheme ++ (authority ++ b'/' ∷ (name ++ suffix)))
      ≡ some (scheme ++ (authority ++ b'/' ∷ []), name, suffix)
unfolding extract_db_url_parts
url_parts-append scheme authority name suffix (inl e) a l t =
    rw (e, cut-append b'/' authority (name ++ suffix) a, split_query-append name suffix l t) refl
url_parts-append scheme authority name suffix (inr e) a l t =
    rw (e, cut-append b'/' authority (name ++ suffix) a, split_query-append name suffix l t) refl

-- The parts of a URL spell it, and with any name that has no question mark in the place of its database's,
-- they are the parts of the URL that they then spell.
pub extract_db_url_parts-append :
    (url before name suffix other : Text)
    → extract_db_url_parts url ≡ some (before, name, suffix)
    → Lacks b'?' other
    → (url ≡ before ++ (name ++ suffix))
      × (extract_db_url_parts (before ++ (other ++ suffix)) ≡ some (before, other, suffix))
extract_db_url_parts-append url before name suffix other h l =
    let parts = Parts-extract url before name suffix h in
    (
      parts.whole,
      rw (parts.before_eq, regroup parts.scheme parts.authority (other ++ suffix))
          (url_parts-append parts.scheme parts.authority other suffix parts.known parts.no_slash l
            parts.tail),
    )

-- In a worktree, the URL that the process uses has the parts of the one that is configured, but for the
-- database's name, which is the one derived from the slug.
pub effective_database_url-extract :
    (to_lowercase : Text → Text) (p : Process) (url slug before base suffix : Text)
    → p.database_url_var ≡ some url
    → worktree_slug to_lowercase p ≡ some slug
    → extract_db_url_parts url ≡ some (before, base, suffix)
    → (url' : Text) × (effective_database_url to_lowercase p ≡ ok url')
      × (extract_db_url_parts url' ≡ some (before, derive_db_name base slug, suffix))
unfolding effective_database_url
effective_database_url-extract to_lowercase p url slug before base suffix configured active h =
    let parts = Parts-extract url before base suffix h in
    let clean =
      Lacks-derive_db_name base slug parts.no_query
        (worktree_slug-IsSlug to_lowercase p slug active) in
    (
      before ++ (derive_db_name base slug ++ suffix),
      rw (configured, active, h) refl,
      (extract_db_url_parts-append url before base suffix (derive_db_name base slug) h clean).1,
    )
