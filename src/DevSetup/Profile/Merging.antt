-- ===== src/DevSetup/Profile/Merging.antt =====
-- Which lines the block has after a run, and that they are read back
-- (packages/dev-setup/src/profile.rs).
use mathlib.Core.List.{append_assoc, append-nil}
use epistl.Prelude.{
  ◌≡◌, refl, sym, ◌∙◌, Bool, true, ◌||◌, List, [], ◌∷◌, ◌++◌, arith, all, any, any-append,
  if◌then◌else◌, Bool-cases, inl, inr, subst,
}
use epistl.Text.{Text, same, contains}
use epistl.Text.Laws.{eq_of_same, same_refl, and-true}
use epistl.DevSetup.Profile.{merge_lines}

merge_step :
    (out : List Text) (x l : Text) (b : Bool)
    → (contains (if contains out x then out else out ++ x ∷ []) l || b)
      ≡ (contains out l || (same x l || b))
unfolding contains
merge_step out x l b = elim (Bool-cases (contains out x)) [
  | inl old ↦ rw old (already old)
  | inr new ↦ rw (new, any-append (λ y. same y l) out (x ∷ [])) (ground arith)
]
  where
    already :
        contains out x ≡ true
        → (any (λ y. same y l) out || b) ≡ (any (λ y. same y l) out || (same x l || b))
    already old = elim (Bool-cases (same x l)) [
      | inl e ↦
          let there : any (λ y. same y l) out ≡ true =
            subst (λ z. any (λ y. same y z) out ≡ true) (eq_of_same x l e) old in
          rw there refl
      | inr e ↦ rw e refl
    ]

-- The merged lines are those of the block and those to be added.
pub contains-merge_lines :
    (out incoming : List Text) (l : Text)
    → contains (merge_lines out incoming) l ≡ (contains out l || contains incoming l)
unfolding merge_lines contains
contains-merge_lines out [] l = ground arith
contains-merge_lines out (x ∷ incoming) l =
    contains-merge_lines (if contains out x then out else out ++ x ∷ []) incoming l
    ∙ merge_step out x l (contains incoming l)

-- The lines of the block keep their places, before those that are added.
pub merge_lines-append :
    (out incoming : List Text) → (added : List Text) × (merge_lines out incoming ≡ out ++ added)
unfolding merge_lines
merge_lines-append out [] = ([], sym (append-nil out))
merge_lines-append out (x ∷ incoming) = elim (Bool-cases (contains out x)) [
  | inl old ↦ rw old (merge_lines-append out incoming)
  | inr new ↦
      let (added, e) = merge_lines-append (out ++ x ∷ []) incoming in
      rw new (x ∷ added, e ∙ append_assoc out (x ∷ []) added)
]

-- Merging lines that are all there changes nothing.
pub merge_lines_self :
    (out incoming : List Text) → all (contains out) incoming ≡ true → merge_lines out incoming ≡ out
unfolding merge_lines
merge_lines_self out [] h = refl
merge_lines_self out (x ∷ incoming) h =
    let (there, rest) = and-true (contains out x) (all (contains out) incoming) h in
    rw there (merge_lines_self out incoming rest)

contains-cons :
    (x : Text) (out ls : List Text)
    → all (contains out) ls ≡ true
    → all (contains (x ∷ out)) ls ≡ true
unfolding contains
contains-cons x out [] h = refl
contains-cons x out (l ∷ ls) h =
    let (there, rest) = and-true (contains out l) (all (contains out) ls) h in
    ground (arith, contains-cons x out ls rest)

contains-all : (ls : List Text) → all (contains ls) ls ≡ true
unfolding contains
contains-all [] = refl
contains-all (l ∷ ls) = rw (same_refl l) (contains-cons l ls ls (contains-all ls))

contains_merged :
    (out incoming ls : List Text)
    → all (contains incoming) ls ≡ true
    → all (contains (merge_lines out incoming)) ls ≡ true
contains_merged out incoming [] h = refl
contains_merged out incoming (l ∷ ls) h =
    let (there, rest) = and-true (contains incoming l) (all (contains incoming) ls) h in
    ground (arith, contains-merge_lines out incoming l, contains_merged out incoming ls rest)

-- Merging the same lines again changes nothing.
pub merge_lines_again :
    (out incoming : List Text)
    → merge_lines (merge_lines out incoming) incoming ≡ merge_lines out incoming
merge_lines_again out incoming =
    merge_lines_self (merge_lines out incoming) incoming
      (contains_merged out incoming incoming (contains-all incoming))
