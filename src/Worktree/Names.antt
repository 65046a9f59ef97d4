-- ===== src/Worktree/Names.antt =====
-- What a worktree's database name looks like (apps/api/src/db.rs).
use mathlib.Core.List.{append_assoc}
use epistl.Prelude.{
  ℕ, ◌+◌, ◌-◌, ◌≤◌, ◌≡◌, ◌≢◌, refl, ap, ◌∙◌, true, Option, none, some, [], ◌∷◌, ◌++◌, map, arith,
  ltb, length, all, Bool-cases, subst, inl, inr, take, all-take, length-take-le, length-append,
}
use epistl.Text.{Text, byte_len, strip_prefix, is_empty, cut, trim}
use epistl.Text.Laws.{
  strip_prefix-append, byte_len-append, byte_len_ascii, take-length-append, Lacks, Lacks-append,
}
use epistl.Worktree.{
  is_slug_char, slug_char, sanitize_slug, derive_db_name, wt, marker, slug_of_name, slug_after,
  slug_of_stdout, slug_from_toplevel, slug_from_git, slug_from_var, or_else, worktree_slug,
  GitOutput, Process,
}

-- Every character of a slug is a lower-case letter, a digit or an underscore.
abbrev pub IsSlug : Text → Type 0
IsSlug s = all is_slug_char s ≡ true

slug_char_lem : (c : ℕ) → is_slug_char (slug_char c) ≡ true
unfolding slug_char is_slug_char
slug_char_lem c = ground arith

all-slug_char : (s : Text) → all is_slug_char (map slug_char s) ≡ true
all-slug_char [] = refl
all-slug_char (c ∷ s) = rw (slug_char_lem c) (all-slug_char s)

-- sanitize_slug makes a slug of any text.
pub sanitize_slug-IsSlug :
    (to_lowercase : Text → Text) (s : Text) → IsSlug (sanitize_slug to_lowercase s)
unfolding sanitize_slug
sanitize_slug-IsSlug to_lowercase s = all-slug_char (to_lowercase s)

ascii : (s : Text) → IsSlug s → all (λ c. ltb c 0x80) s ≡ true
unfolding is_slug_char
ascii [] h = refl
ascii (c ∷ s) h = ground (arith, ascii s)

pub byte_len-IsSlug : (s : Text) → IsSlug s → byte_len s ≡ length s
byte_len-IsSlug s h = byte_len_ascii s (ascii s h)

-- The name is the base's, `_wt_` and what fits of the slug.
pub strip_prefix-derive_db_name :
    (base slug : Text)
    → strip_prefix (base ++ wt) (derive_db_name base slug)
      ≡ some (take (63 - byte_len (base ++ wt)) slug)
unfolding derive_db_name
strip_prefix-derive_db_name base slug = strip_prefix-append (base ++ wt) _

module _ (base slug : Text) where
  pub room : byte_len (base ++ wt) ≡ byte_len base + 4
  unfolding byte_len
  room = byte_len-append base wt

  longer : derive_db_name base slug ≢ base
  unfolding derive_db_name
  longer e =
      let whole = length-append (base ++ wt) (take (63 - byte_len (base ++ wt)) slug) in
      omega (arith, length-append base wt, whole, ap length e)

  -- A base name of at most 59 bytes and any slug make a name of at most 63 bytes, which is not the
  -- base's name, and which is the base's, `_wt_` and as much of the slug as the limit leaves.
  pub derive_db_name-byte_len :
      byte_len base ≤ 59
      → IsSlug slug
      → (byte_len (derive_db_name base slug) ≤ 63)
        × (derive_db_name base slug ≢ base)
        × (strip_prefix (base ++ wt) (derive_db_name base slug)
            ≡ some (take (59 - byte_len base) slug))
  unfolding derive_db_name
  derive_db_name-byte_len h s =
      let kept = take (63 - byte_len (base ++ wt)) slug in
      let fits : 63 - byte_len (base ++ wt) ≡ 59 - byte_len base = omega (arith, room) in
      let all_kept : IsSlug kept = all-take is_slug_char _ slug s in
      (
        omega (
          arith,
          room,
          byte_len-append (base ++ wt) kept,
          byte_len-IsSlug kept all_kept,
          length-take-le (63 - byte_len (base ++ wt)) slug,
        ),
        longer,
        strip_prefix-derive_db_name base slug ∙ ap (λ n. some (take n slug)) fits,
      )

  -- If the base's name is 63 ASCII characters long, so are the first 63 of the name derived from it.
  pub take-derive_db_name : length base ≡ 63 → take 63 (derive_db_name base slug) ≡ base
  unfolding derive_db_name
  take-derive_db_name h = ap (take 63) (append_assoc base wt _) ∙ take-length-append 63 base _ h

-- A slug has no question mark, and so the name made with it has none.
Lacks-IsSlug : (s : Text) → IsSlug s → Lacks b'?' s
unfolding is_slug_char
Lacks-IsSlug [] h = refl
Lacks-IsSlug (c ∷ s) h = ground (arith, Lacks-IsSlug s)

pub Lacks-derive_db_name :
    (base slug : Text) → Lacks b'?' base → IsSlug slug → Lacks b'?' (derive_db_name base slug)
unfolding derive_db_name
Lacks-derive_db_name base slug h s =
    Lacks-append b'?' (base ++ wt) _ (Lacks-append b'?' base wt h refl) (
      Lacks-IsSlug (take (63 - byte_len (base ++ wt)) slug)
        (all-take is_slug_char (63 - byte_len (base ++ wt)) slug s))

module _ (to_lowercase : Text → Text) where
  slug_of_name-IsSlug :
      (name slug : Text) → slug_of_name to_lowercase name ≡ some slug → IsSlug slug
  slug_of_name-IsSlug name slug h = elim (Bool-cases (is_empty name)) [
    | inl e ↦ cc (rw e at h)
    | inr e ↦ subst IsSlug (cc (rw e at h)) (sanitize_slug-IsSlug to_lowercase name)
  ]

  slug_after-IsSlug :
      (o : Option (Text × Text)) (slug : Text) → slug_after to_lowercase o ≡ some slug → IsSlug slug
  slug_after-IsSlug none slug h = cc
  slug_after-IsSlug (some (before, after)) slug h = slug_of_name-IsSlug _ slug h

  slug_of_stdout-IsSlug :
      (o : Option Text) (slug : Text) → slug_of_stdout to_lowercase o ≡ some slug → IsSlug slug
  unfolding slug_from_toplevel
  slug_of_stdout-IsSlug none slug h = cc
  slug_of_stdout-IsSlug (some stdout) slug h = slug_after-IsSlug (cut marker (trim stdout)) slug h

  slug_from_git-IsSlug :
      (o : Option GitOutput) (slug : Text) → slug_from_git to_lowercase o ≡ some slug → IsSlug slug
  slug_from_git-IsSlug none slug h = cc
  slug_from_git-IsSlug (some o) slug h = elim (Bool-cases o.success) [
    | inl e ↦ slug_of_stdout-IsSlug o.stdout slug (rw e at h)
    | inr e ↦ cc (rw e at h)
  ]

  -- The slug of the process, wherever it is from, is a slug.
  pub worktree_slug-IsSlug :
      (p : Process) (slug : Text) → worktree_slug to_lowercase p ≡ some slug → IsSlug slug
  unfolding worktree_slug
  worktree_slug-IsSlug p slug h =
      from (slug_from_var to_lowercase p.worktree_slug_var) (var p.worktree_slug_var) h
    where
      var : (v : Option Text) (s : Text) → slug_from_var to_lowercase v ≡ some s → IsSlug s
      var none s e = cc
      var (some name) s e = slug_of_name-IsSlug name s e

      from :
          (o : Option Text)
          → ((s : Text) → o ≡ some s → IsSlug s)
          → or_else to_lowercase o (slug_from_git to_lowercase p.show_toplevel) ≡ some slug
          → IsSlug slug
      from none known e = slug_from_git-IsSlug p.show_toplevel slug e
      from (some s) known e = known slug e
