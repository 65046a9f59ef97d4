-- ===== src/DevSetup/EnvFile/Rewriting.antt =====
-- What the new `.env` files hold (packages/dev-setup/src/env_file.rs).
use epistl.Prelude.{
  ◌≡◌, refl, ap, ◌∙◌, true, Option, none, some, List, [], ◌∷◌, map, Bool-cases, inl, inr,
  Option-cases,
}
use epistl.Text.{Text, strip_prefix}
use epistl.Text.Laws.{Lacks, and-true}
use epistl.Text.Lines.{lines, unlines}
use epistl.Text.LineLaws.{is_clean, all_clean, all_clean-lines, lines-unlines}
use epistl.DevSetup.EnvFile.{
  Files, Writes, EnvFileOutcome, rewrite_line, rewrite_seaweedfs_internal, ensure_env_files,
  ensure_root_env, ensure_copy, localised, internal_endpoint, root_for, root_from, copy_for,
  copy_from, then_copy, both,
}

rewrite_line-clean : (l : Text) → is_clean l ≡ true → is_clean (rewrite_line l) ≡ true
unfolding rewrite_line
rewrite_line-clean l h = by_case (strip_prefix internal_endpoint l)
  where
    by_case : (o : Option Text) → is_clean (localised l o) ≡ true
    by_case none = h
    by_case (some rest) = refl

all_clean-rewrite_line :
    (ls : List Text) → all_clean ls ≡ true → all_clean (map rewrite_line ls) ≡ true
all_clean-rewrite_line [] h = refl
all_clean-rewrite_line (l ∷ ls) h =
    let (clean, rest) = and-true (is_clean l) (all_clean ls) h in
    rw (rewrite_line-clean l clean) (all_clean-rewrite_line ls rest)

rewrite_line_twice : (l : Text) → rewrite_line (rewrite_line l) ≡ rewrite_line l
unfolding rewrite_line
rewrite_line_twice l = elim (Option-cases (strip_prefix internal_endpoint l)) [
  | inl other ↦ rw (other, other) refl
  | inr (rest, found) ↦ rw found refl
]

map-rewrite_line_twice :
    (ls : List Text) → map rewrite_line (map rewrite_line ls) ≡ map rewrite_line ls
map-rewrite_line_twice [] = refl
map-rewrite_line_twice (l ∷ ls) = rw (rewrite_line_twice l, map-rewrite_line_twice ls) refl

-- A file without carriage returns keeps its lines in their order, but for those that set the endpoint,
-- which become the local one; rewriting the result again changes nothing.
pub lines-rewrite_seaweedfs_internal :
    (contents : Text)
    → Lacks 13 contents
    → (lines (rewrite_seaweedfs_internal contents) ≡ map rewrite_line (lines contents))
      × (rewrite_seaweedfs_internal (rewrite_seaweedfs_internal contents)
          ≡ rewrite_seaweedfs_internal contents)
unfolding rewrite_seaweedfs_internal
lines-rewrite_seaweedfs_internal contents h =
    let read =
      lines-unlines (map rewrite_line (lines contents))
        (all_clean-rewrite_line (lines contents) (all_clean-lines contents h)) in
    (
      read,
      ap (λ ls. unlines (map rewrite_line ls)) read
          ∙ ap unlines (map-rewrite_line_twice (lines contents)),
    )

-- That a file which is there is left as it is.
abbrev pub Untouched : Option Text → Option Text → Type 0
Untouched none after = Unit {0}
Untouched (some text) after = after ≡ some text

-- What a step of the set-up keeps.
abbrev pub Kept : Files → Files → Type 0
Kept f g =
    (g.root_example ≡ f.root_example)
    × (g.mobile_example ≡ f.mobile_example)
    × Untouched f.root_env g.root_env
    × Untouched f.mobile_env g.mobile_env

Untouched-same : (o : Option Text) → Untouched o o
Untouched-same none = tt
Untouched-same (some t) = refl

unset : (o after : Option Text) → o ≡ none → Untouched o after
unset none after h = tt
unset (some t) after h = cc

Untouched-trans : (a b c : Option Text) → Untouched a b → Untouched b c → Untouched a c
Untouched-trans none b c h k = tt
Untouched-trans (some t) none c h k = cc
Untouched-trans (some t) (some u) c h k = k ∙ h

same-Kept : (f : Files) → Kept f f
same-Kept f = (refl, refl, Untouched-same f.root_env, Untouched-same f.mobile_env)

Kept-trans : (f g h : Files) → Kept f g → Kept g h → Kept f h
Kept-trans f g h (a, b, c, d) (a', b', c', d') = (
  a' ∙ a,
  b' ∙ b,
  Untouched-trans f.root_env g.root_env h.root_env c c',
  Untouched-trans f.mobile_env g.mobile_env h.mobile_env d d',
)

module _ (io : Writes) (f : Files) where
  root-Kept : Kept f (ensure_root_env io f).1
  unfolding ensure_root_env
  root-Kept = by_env f.root_env refl
    where
      by_example : (e : Option Text) → f.root_env ≡ none → Kept f (root_from io e f).1
      by_example none h = same-Kept f
      by_example (some contents) h = elim (Bool-cases io.root_ok) [
        | inl done ↦ rw done (refl, refl, unset f.root_env _ h, Untouched-same f.mobile_env)
        | inr broken ↦ rw broken (refl, refl, unset f.root_env _ h, Untouched-same f.mobile_env)
      ]

      by_env : (o : Option Text) → f.root_env ≡ o → Kept f (root_for io o f).1
      by_env (some env) h = same-Kept f
      by_env none h = by_example f.root_example h

  copy-Kept : Kept f (ensure_copy io f).1
  unfolding ensure_copy
  copy-Kept = by_env f.mobile_env refl
    where
      by_example : (e : Option Text) → f.mobile_env ≡ none → Kept f (copy_from io e f).1
      by_example none h = same-Kept f
      by_example (some contents) h = elim (Bool-cases io.mobile_ok) [
        | inl done ↦ rw done (refl, refl, Untouched-same f.root_env, unset f.mobile_env _ h)
        | inr broken ↦ rw broken (refl, refl, Untouched-same f.root_env, unset f.mobile_env _ h)
      ]

      by_env : (o : Option Text) → f.mobile_env ≡ o → Kept f (copy_for io o f).1
      by_env (some env) h = same-Kept f
      by_env none h = by_example f.mobile_example h

-- Setting up the `.env` files never changes the example files, and leaves an `.env` file that is there as
-- it is, also where the run fails.
pub ensure_env_files-Kept : (io : Writes) (f : Files) → Kept f (ensure_env_files io f).1
unfolding ensure_env_files
ensure_env_files-Kept io f = then_copied (ensure_root_env io f) (root-Kept io f)
  where
    paired :
        (root : EnvFileOutcome) (r : Option EnvFileOutcome × Files)
        → Kept f r.1
        → Kept f (both root r).1
    paired root (none, g) k = k
    paired root (some mobile, g) k = k

    then_copied : (r : Option EnvFileOutcome × Files) → Kept f r.1 → Kept f (then_copy io r).1
    then_copied (none, g) k = k
    then_copied (some root, g) k =
        paired root (ensure_copy io g) (Kept-trans f g (ensure_copy io g).1 k (copy-Kept io g))
