-- ===== src/Text/Searching.antt =====
-- Laws of `str::find`: where the first place of a marker is when text is put before or behind it.
use mathlib.Core.List.{append_assoc}
use epistl.Prelude.{
  ℕ, ◌≤◌, ◌≡◌, refl, ap, sym, ◌∙◌, false, Option, none, some, [], ◌∷◌, ◌++◌, arith, length,
  length-append,
}
use epistl.Text.{Text, strip_prefix, cut, cut_here, is_empty}
use epistl.Text.Laws.{Lacks, strip_prefix-append}

-- Text put before what stands before a marker.
abbrev pub shift : Text → Option (Text × Text) → Option (Text × Text)
shift p none = none
shift p (some (before, rest)) = some (p ++ before, rest)

-- A marker is at the start of a text that begins with it.
pub cut-append_self : (m s : Text) → is_empty m ≡ false → cut m (m ++ s) ≡ some ([], s)
unfolding cut is_empty
cut-append_self [] s n = cc
cut-append_self (c ∷ m) s n = rw (strip_prefix-append (c ∷ m) s) refl

strip_prefix-newline :
    (m u v : Text) → strip_prefix m u ≡ none → Lacks 10 m → strip_prefix m (u ++ 10 ∷ v) ≡ none
unfolding strip_prefix
strip_prefix-newline [] u v h l = cc
strip_prefix-newline (x ∷ m) [] v h l = ground arith
strip_prefix-newline (x ∷ m) (d ∷ u) v h l = ground (arith, strip_prefix-newline m u v)

strip_prefix-nil : (m : Text) → is_empty m ≡ false → strip_prefix m [] ≡ none
unfolding strip_prefix is_empty
strip_prefix-nil [] n = cc
strip_prefix-nil (x ∷ m) n = refl

shift-one : (c : ℕ) (o : Option (Text × Text)) → cut_here none c o ≡ shift (c ∷ []) o
shift-one c none = refl
shift-one c (some parts) = refl

shift-cons :
    (c : ℕ) (p : Text) (o : Option (Text × Text)) → cut_here none c (shift p o) ≡ shift (c ∷ p) o
shift-cons c p none = refl
shift-cons c p (some parts) = refl

not_here :
    (o : Option Text) (c : ℕ) (l : Option (Text × Text))
    → cut_here o c l ≡ none
    → (o ≡ none) × (l ≡ none)
not_here (some t) c l h = cc
not_here none c none h = (refl, refl)
not_here none c (some parts) h = cc

only_later :
    (o : Option Text) (c : ℕ) (p r : Text) (l : Option (Text × Text))
    → cut_here o c l ≡ some (c ∷ p, r)
    → (o ≡ none) × (l ≡ some (p, r))
only_later (some t) c p r l h = cc
only_later none c p r none h = cc
only_later none c p r (some parts) h = (refl, cc h)

-- A marker without newlines is not found across one.
pub cut-newline :
    (m s v : Text)
    → is_empty m ≡ false
    → Lacks 10 m
    → cut m s ≡ none
    → cut m (s ++ 10 ∷ v) ≡ shift (s ++ 10 ∷ []) (cut m v)
unfolding cut
cut-newline m [] v n l h =
    rw (strip_prefix-newline m [] v (strip_prefix-nil m n) l) (shift-one 10 (cut m v))
cut-newline m (c ∷ s) v n l h =
    let (absent_here, absent_later) = not_here (strip_prefix m (c ∷ s)) c (cut m s) h in
    rw (strip_prefix-newline m (c ∷ s) v absent_here l, cut-newline m s v n l absent_later)
      (shift-cons c (s ++ 10 ∷ []) (cut m v))

strip_prefix_far :
    (m u r t : Text)
    → length m ≤ length u
    → strip_prefix m (u ++ r) ≡ none
    → strip_prefix m (u ++ t) ≡ none
unfolding strip_prefix
strip_prefix_far [] u r t k h = cc
strip_prefix_far (x ∷ m) [] r t k h = absurd (omega arith)
strip_prefix_far (x ∷ m) (d ∷ u) r t k h = ground (arith, strip_prefix_far m u r t)

-- The first place of a marker does not depend on what stands behind the marker there.
pub cut-append_other :
    (m p r t : Text)
    → is_empty m ≡ false
    → cut m (p ++ (m ++ r)) ≡ some (p, r)
    → cut m (p ++ (m ++ t)) ≡ some (p, t)
unfolding cut
cut-append_other m [] r t n h = cut-append_self m t n
cut-append_other m (c ∷ p) r t n h =
    let (absent_here, later) =
      only_later (strip_prefix m (c ∷ (p ++ (m ++ r)))) c p r (cut m (p ++ (m ++ r))) h in
    let absent_there = stays_absent c p r t absent_here in
    rw (absent_there, cut-append_other m p r t n later) refl
  where
    stays_absent :
        (c : ℕ) (p r t : Text)
        → strip_prefix m (c ∷ (p ++ (m ++ r))) ≡ none
        → strip_prefix m (c ∷ (p ++ (m ++ t))) ≡ none
    stays_absent c p r t h =
        let longer : length m ≤ length ((c ∷ p) ++ m) = omega (arith, length-append (c ∷ p) m) in
        ap (strip_prefix m) (sym (append_assoc (c ∷ p) m t))
        ∙ strip_prefix_far m ((c ∷ p) ++ m) r t longer
            (ap (strip_prefix m) (append_assoc (c ∷ p) m r) ∙ h)
