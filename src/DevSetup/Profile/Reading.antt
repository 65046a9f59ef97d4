-- ===== src/DevSetup/Profile/Reading.antt =====
-- What is written between the marks is read back as the same lines
-- (packages/dev-setup/src/profile.rs).
use epistl.Prelude.{
  ℕ, ◌≡◌, refl, ap, ◌∙◌, Bool, true, false, not, ◌&&◌, List, [], ◌∷◌, ◌++◌, arith, all, map, retain,
  ◌==◌,
}
use epistl.Text.{Text, same, is_empty, trim_end, trim_end_by, trim_start_by, keep_char}
use epistl.Text.Laws.{Lacks, Lacks-append, eq_of_same, and-true}
use epistl.Text.Lines.{lines, split_lines, join_lines}
use epistl.Text.LineLaws.{is_clean, split_lines-append, drop_returns-Lacks, clean-Lacks}
use epistl.DevSetup.Profile.{kept_lines, trim_newlines, is_newline}

-- A line as the block has them: not empty, with no line end in it, and no blank at its end.
abbrev pub is_tidy : Text → Bool
is_tidy l = not (is_empty l) && (is_clean l && same (trim_end l) l)

tidy_parts :
    (l : Text) → is_tidy l ≡ true → (is_empty l ≡ false) × (is_clean l ≡ true) × (trim_end l ≡ l)
tidy_parts l h =
    let (full, rest) = and-true (not (is_empty l)) (is_clean l && same (trim_end l) l) h in
    let (clean, trimmed) = and-true (is_clean l) (same (trim_end l) l) rest in
    (ground arith, clean, eq_of_same (trim_end l) l trimmed)

keep_char-append :
    (p : ℕ → Bool) (c : ℕ) (a l : Text) → is_empty l ≡ false → keep_char p c (a ++ l) ≡ c ∷ (a ++ l)
unfolding is_empty
keep_char-append p c [] [] n = cc
keep_char-append p c [] (d ∷ l) n = refl
keep_char-append p c (d ∷ a) l n = refl

trim_end_by-append :
    (p : ℕ → Bool) (a l : Text)
    → is_empty l ≡ false
    → trim_end_by p l ≡ l
    → trim_end_by p (a ++ l) ≡ a ++ l
unfolding trim_end_by
trim_end_by-append p [] l n e = e
trim_end_by-append p (c ∷ a) l n e = rw (trim_end_by-append p a l n e) (keep_char-append p c a l n)

trim_end_by-last :
    (p : ℕ → Bool) (s : Text) (c : ℕ) → p c ≡ true → trim_end_by p (s ++ c ∷ []) ≡ trim_end_by p s
unfolding trim_end_by
trim_end_by-last p [] c h = rw h refl
trim_end_by-last p (d ∷ s) c h = ap (keep_char p d) (trim_end_by-last p s c h)

keep_char-clean : (c : ℕ) (l : Text) → is_clean (c ∷ l) ≡ true → keep_char is_newline c l ≡ c ∷ l
keep_char-clean c [] h = ground arith
keep_char-clean c (d ∷ l) h = refl

trim_end_by-clean : (l : Text) → is_clean l ≡ true → trim_end_by is_newline l ≡ l
unfolding trim_end_by
trim_end_by-clean [] h = refl
trim_end_by-clean (c ∷ l) h =
    let (fits, rest) = and-true (not (c == 10) && not (c == 13)) (is_clean l) h in
    rw (trim_end_by-clean l rest) (keep_char-clean c l h)

full-join_lines :
    (l : Text) (ls : List Text) → is_tidy l ≡ true → is_empty (join_lines (l ∷ ls)) ≡ false
unfolding join_lines is_empty
full-join_lines l [] h = (tidy_parts l h).0
full-join_lines [] (m ∷ ls) h = cc
full-join_lines (c ∷ l) (m ∷ ls) h = refl

trim_end_by-join_lines :
    (ls : List Text)
    → all is_tidy ls ≡ true
    → trim_end_by is_newline (join_lines ls) ≡ join_lines ls
unfolding join_lines trim_end_by
trim_end_by-join_lines [] h = refl
trim_end_by-join_lines (l ∷ []) h =
    let (tidy, rest) = and-true (is_tidy l) true h in trim_end_by-clean l (tidy_parts l tidy).1
trim_end_by-join_lines (l ∷ m ∷ ls) h =
    let (tidy, rest) = and-true (is_tidy l) (all is_tidy (m ∷ ls)) h in
    let (next, more) = and-true (is_tidy m) (all is_tidy ls) rest in
    trim_end_by-append is_newline l (10 ∷ join_lines (m ∷ ls)) (unfold is_empty in refl) (
      trim_end_by-append is_newline (10 ∷ []) (join_lines (m ∷ ls)) (full-join_lines m ls next)
        (trim_end_by-join_lines (m ∷ ls) rest))

Lacks-join_lines : (ls : List Text) → all is_tidy ls ≡ true → Lacks 13 (join_lines ls)
unfolding join_lines
Lacks-join_lines [] h = refl
Lacks-join_lines (l ∷ []) h =
    let (tidy, rest) = and-true (is_tidy l) true h in clean-Lacks l (tidy_parts l tidy).1
Lacks-join_lines (l ∷ m ∷ ls) h =
    let (tidy, rest) = and-true (is_tidy l) (all is_tidy (m ∷ ls)) h in
    Lacks-append 13 l (10 ∷ join_lines (m ∷ ls)) (clean-Lacks l (tidy_parts l tidy).1)
      (Lacks-join_lines (m ∷ ls) rest)

split_lines-clean :
    (c : ℕ) (l : Text) → is_clean (c ∷ l) ≡ true → split_lines (c ∷ l) ≡ (c ∷ l) ∷ []
unfolding split_lines
split_lines-clean c [] h = ground arith
split_lines-clean c (d ∷ l) h =
    let (fits, rest) = and-true (not (c == 10) && not (c == 13)) (is_clean (d ∷ l)) h in
    rw (split_lines-clean d l rest) (ground arith)

split_lines-tidy : (l : Text) → is_tidy l ≡ true → split_lines l ≡ l ∷ []
unfolding is_empty
split_lines-tidy [] h = cc
split_lines-tidy (c ∷ l) h = split_lines-clean c l (tidy_parts (c ∷ l) h).1

split_lines-join_lines : (ls : List Text) → all is_tidy ls ≡ true → split_lines (join_lines ls) ≡ ls
unfolding join_lines split_lines
split_lines-join_lines [] h = refl
split_lines-join_lines (l ∷ []) h =
    let (tidy, rest) = and-true (is_tidy l) true h in split_lines-tidy l tidy
split_lines-join_lines (l ∷ m ∷ ls) h =
    let (tidy, rest) = and-true (is_tidy l) (all is_tidy (m ∷ ls)) h in
    split_lines-append l (join_lines (m ∷ ls)) (tidy_parts l tidy).1
    ∙ ap (λ r. l ∷ r) (split_lines-join_lines (m ∷ ls) rest)

retain-tidy :
    (ls : List Text) → all is_tidy ls ≡ true → retain (λ l. not (is_empty l)) (map trim_end ls) ≡ ls
retain-tidy [] h = refl
retain-tidy (l ∷ ls) h =
    let (tidy, rest) = and-true (is_tidy l) (all is_tidy ls) h in
    let (full, clean, trimmed) = tidy_parts l tidy in
    rw (trimmed, full) (ap (λ r. l ∷ r) (retain-tidy ls rest))

no_newline : (c : ℕ) (l : Text) → is_tidy (c ∷ l) ≡ true → (c == 10) ≡ false
no_newline c l h =
    let clean = (tidy_parts (c ∷ l) h).1 in
    let (fits, rest) = and-true (not (c == 10) && not (c == 13)) (is_clean l) clean in ground arith

trim_newlines_once : (s : Text) → trim_end_by is_newline (s ++ 10 ∷ []) ≡ trim_end_by is_newline s
trim_newlines_once s = trim_end_by-last is_newline s 10 refl

trim_start_by-join_lines :
    (ls : List Text)
    → all is_tidy ls ≡ true
    → trim_end_by is_newline (trim_start_by is_newline (join_lines ls ++ 10 ∷ [])) ≡ join_lines ls
unfolding trim_start_by trim_end_by join_lines is_empty
trim_start_by-join_lines [] h = refl
trim_start_by-join_lines ([] ∷ ls) h = cc
trim_start_by-join_lines ((c ∷ l) ∷ []) h =
    let (tidy, rest) = and-true (is_tidy (c ∷ l)) true h in
    rw (no_newline c l tidy) (trim_newlines_once (c ∷ l) ∙ trim_end_by-join_lines ((c ∷ l) ∷ []) h)
trim_start_by-join_lines ((c ∷ l) ∷ m ∷ ls) h =
    let (tidy, rest) = and-true (is_tidy (c ∷ l)) (all is_tidy (m ∷ ls)) h in
    rw (no_newline c l tidy) (
      trim_newlines_once (join_lines ((c ∷ l) ∷ m ∷ ls))
      ∙ trim_end_by-join_lines ((c ∷ l) ∷ m ∷ ls) h)

-- The block's body, as it is written, gives the lines that were written.
pub kept_lines-trim_newlines :
    (ls : List Text)
    → all is_tidy ls ≡ true
    → kept_lines (trim_newlines (10 ∷ (join_lines ls ++ 10 ∷ []))) ≡ ls
unfolding kept_lines trim_newlines trim_start_by lines
kept_lines-trim_newlines ls h =
    rw
      (
        trim_start_by-join_lines ls h,
        drop_returns-Lacks (join_lines ls) (Lacks-join_lines ls h),
        split_lines-join_lines ls h,
      )
      (retain-tidy ls h)
