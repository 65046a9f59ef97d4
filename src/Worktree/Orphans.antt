-- ===== src/Worktree/Orphans.antt =====
-- Which databases `prune_worktree_dbs` takes for a gone worktree's (apps/api/src/db.rs).
use epistl.Prelude.{
  ◌-◌, ◌≡◌, refl, ◌∙◌, Bool, true, false, not, ◌&&◌, Option, none, some, List, [], ◌∷◌, ◌++◌, map,
  arith, length-append, take, Bool-cases, inl, inr, cons?,
}
use epistl.Text.{Text, byte_len, contains, same, strip_prefix}
use epistl.Text.Laws.{same_refl, eq_of_same, strip_prefix_short}
use epistl.Worktree.{wt, derive_db_name}
use epistl.Worktree.Names.{strip_prefix-derive_db_name, room}
use epistl.Worktree.Prune.{orphaned_worktree_dbs, orphan}

abbrev pub names_of : List (Text × Text) → List Text
names_of orphans = map (λ o. o.0) orphans

and_false : (b : Bool) → (b && false) ≡ false
and_false true = refl
and_false false = refl

module _ (base : Text) (active : List Text) (n : Text) where
  skipped :
      (x : Text) (o : Option Text) (rest : List (Text × Text))
      → same x n ≡ false
      → contains (names_of (cons? (orphan x active o) rest)) n ≡ contains (names_of rest) n
  unfolding contains
  skipped x none rest h = refl
  skipped x (some slug) rest h = elim (Bool-cases (contains active slug)) [
    | inl live ↦ rw live refl
    | inr gone ↦ rw (gone, h) refl
  ]

  met :
      (slug : Text) (rest : List (Text × Text)) (b : Bool)
      → contains (names_of rest) n ≡ (b && not (contains active slug))
      → contains (names_of (cons? (orphan n active (some slug)) rest)) n
        ≡ not (contains active slug)
  unfolding contains
  met slug rest b h = elim (Bool-cases (contains active slug)) [
    | inl live ↦ rw (live, h, live) (and_false b)
    | inr gone ↦ rw (gone, same_refl n) refl
  ]

  -- A name that carries a slug is an orphan if it is listed and its slug is not active.
  pub contains-orphaned :
      (all_dbs : List Text) {slug : Text}
      → strip_prefix (base ++ wt) n ≡ some slug
      → contains (names_of (orphaned_worktree_dbs all_dbs base active)) n
        ≡ (contains all_dbs n && not (contains active slug))
  unfolding orphaned_worktree_dbs contains
  contains-orphaned [] h = refl
  contains-orphaned (x ∷ xs) {slug} h = elim (Bool-cases (same x n)) [
    | inl here ↦
        rw (eq_of_same x n here, h, same_refl n)
          (met slug _ (contains xs n) (contains-orphaned xs h))
    | inr there ↦ rw there (skipped x _ _ there ∙ contains-orphaned xs h)
  ]

  pub contains-orphaned_none :
      (all_dbs : List Text)
      → strip_prefix (base ++ wt) n ≡ none
      → contains (names_of (orphaned_worktree_dbs all_dbs base active)) n ≡ false
  unfolding orphaned_worktree_dbs contains
  contains-orphaned_none [] h = refl
  contains-orphaned_none (x ∷ xs) h = elim (Bool-cases (same x n)) [
    | inl here ↦ rw (eq_of_same x n here, h) (contains-orphaned_none xs h)
    | inr there ↦ skipped x _ _ there ∙ contains-orphaned_none xs h
  ]

module _ (base slug : Text) (active all_dbs : List Text) where
  -- The database of a worktree is taken for a gone worktree's exactly if it is listed and what its name
  -- keeps of the slug, which is the first 59 characters less the bytes of the base's name, is not the
  -- slug of a live worktree. The base database never is.
  pub orphaned-derive_db_name :
      (contains (names_of (orphaned_worktree_dbs all_dbs base active)) (derive_db_name base slug)
        ≡ (contains all_dbs (derive_db_name base slug)
            && not (contains active (take (59 - byte_len base) slug))))
      × (contains (names_of (orphaned_worktree_dbs all_dbs base active)) base ≡ false)
  orphaned-derive_db_name =
      let kept : 63 - byte_len (base ++ wt) ≡ 59 - byte_len base = omega (arith, room base slug) in
      let carried =
        contains-orphaned base active (derive_db_name base slug) all_dbs
          (strip_prefix-derive_db_name base slug) in
      let longer = strip_prefix_short (base ++ wt) base (omega (arith, length-append base wt)) in
      (rw kept at carried, contains-orphaned_none base active base all_dbs longer)
