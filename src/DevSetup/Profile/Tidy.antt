-- ===== src/DevSetup/Profile/Tidy.antt =====
-- The lines that the block is made of are tidy where neither the profile nor the lines to be added
-- hold a carriage return (packages/dev-setup/src/profile.rs).
use epistl.Prelude.{
  ℕ, ◌≡◌, refl, ap, subst, ◌∙◌, Bool, true, not, ◌&&◌, Option, none, some, List, [], ◌∷◌, ◌++◌, all,
  map, retain, ◌==◌, Bool-cases, inl, inr,
}
use epistl.Text.{
  Text, same, contains, is_empty, trim_end, trim_end_by, trim_start_by, keep_char, is_whitespace,
}
use epistl.Text.Laws.{Lacks, same_refl, and-true}
use epistl.Text.Lines.{lines}
use epistl.Text.LineLaws.{is_clean, all_clean, all_clean-lines}
use epistl.DevSetup.Profile.{
  begin_mark, end_mark, find_block, kept_lines, trim_newlines, merge_lines, extract_block_lines,
  lines_of_block, is_newline,
}
use epistl.DevSetup.Profile.Finding.{append-find_block}
use epistl.DevSetup.Profile.Reading.{is_tidy}

trim_end_by-keep_char :
    (p : ℕ → Bool) (c : ℕ) (l : Text)
    → trim_end_by p l ≡ l
    → trim_end_by p (keep_char p c l) ≡ keep_char p c l
unfolding trim_end_by
trim_end_by-keep_char p c [] h = elim (Bool-cases (p c)) [
  | inl e ↦ rw e refl
  | inr e ↦ rw (e, e) refl
]
trim_end_by-keep_char p c (d ∷ l) h = ap (keep_char p c) h

trim_end_by_again : (p : ℕ → Bool) (l : Text) → trim_end_by p (trim_end_by p l) ≡ trim_end_by p l
unfolding trim_end_by
trim_end_by_again p [] = refl
trim_end_by_again p (c ∷ l) = trim_end_by-keep_char p c (trim_end_by p l) (trim_end_by_again p l)

-- What is trimmed holds no other characters.
all-keep_char :
    (q p : ℕ → Bool) (c : ℕ) (l : Text)
    → q c ≡ true
    → all q l ≡ true
    → all q (keep_char p c l) ≡ true
all-keep_char q p c [] h k = elim (Bool-cases (p c)) [ inl e ↦ rw e refl | inr e ↦ rw (e, h) refl ]
all-keep_char q p c (d ∷ l) h k = rw h k

all-trim_end_by : (q p : ℕ → Bool) (l : Text) → all q l ≡ true → all q (trim_end_by p l) ≡ true
unfolding trim_end_by
all-trim_end_by q p [] h = refl
all-trim_end_by q p (c ∷ l) h =
    let (here, rest) = and-true (q c) (all q l) h in
    all-keep_char q p c (trim_end_by p l) here (all-trim_end_by q p l rest)

all-trim_start_by : (q p : ℕ → Bool) (l : Text) → all q l ≡ true → all q (trim_start_by p l) ≡ true
unfolding trim_start_by
all-trim_start_by q p [] h = refl
all-trim_start_by q p (c ∷ l) h =
    let (here, rest) = and-true (q c) (all q l) h in
    elim (Bool-cases (p c)) [ inl e ↦ rw e (all-trim_start_by q p l rest) | inr e ↦ rw e h ]

all_tidy-retain :
    (ls : List Text)
    → all_clean ls ≡ true
    → all is_tidy (retain (λ l. not (is_empty l)) (map trim_end ls)) ≡ true
unfolding trim_end
all_tidy-retain [] h = refl
all_tidy-retain (l ∷ ls) h =
    let (clean, rest) = and-true (is_clean l) (all_clean ls) h in
    let trimmed : same (trim_end (trim_end l)) (trim_end l) ≡ true =
      ap (λ (t : Text). same t (trim_end l)) (trim_end_by_again is_whitespace l)
      ∙ same_refl (trim_end l) in
    let still_clean = all-trim_end_by (λ d. not (d == 10) && not (d == 13)) is_whitespace l clean in
    elim (Bool-cases (is_empty (trim_end l))) [
      | inl e ↦ rw e (all_tidy-retain ls rest)
      | inr e ↦ rw (e, e, still_clean, trimmed) (all_tidy-retain ls rest)
    ]

pub all_tidy-kept_lines : (body : Text) → Lacks 13 body → all is_tidy (kept_lines body) ≡ true
unfolding kept_lines
all_tidy-kept_lines body h = all_tidy-retain (lines body) (all_clean-lines body h)

Lacks-back : (c : ℕ) (s t : Text) → Lacks c (s ++ t) → (Lacks c s) × (Lacks c t)
Lacks-back c [] t h = (refl, h)
Lacks-back c (d ∷ s) t h =
    let (here, rest) = and-true (not (d == c)) (all (λ e. not (e == c)) (s ++ t)) h in
    let (before, after) = Lacks-back c s t rest in (rw here before, after)

all_tidy-append :
    (out : List Text) (l : Text)
    → all is_tidy out ≡ true
    → is_tidy l ≡ true
    → all is_tidy (out ++ l ∷ []) ≡ true
all_tidy-append [] l h k = rw k refl
all_tidy-append (m ∷ out) l h k =
    let (tidy, rest) = and-true (is_tidy m) (all is_tidy out) h in
    rw tidy (all_tidy-append out l rest k)

all_tidy-merge_lines :
    (out incoming : List Text)
    → all is_tidy out ≡ true
    → all is_tidy incoming ≡ true
    → all is_tidy (merge_lines out incoming) ≡ true
unfolding merge_lines
all_tidy-merge_lines out [] h k = h
all_tidy-merge_lines out (l ∷ incoming) h k =
    let (tidy, rest) = and-true (is_tidy l) (all is_tidy incoming) k in
    elim (Bool-cases (contains out l)) [
      | inl e ↦ rw e (all_tidy-merge_lines out incoming h rest)
      | inr e ↦
          rw e (all_tidy-merge_lines (out ++ l ∷ []) incoming (all_tidy-append out l h tidy) rest)
    ]

Lacks-trim_newlines : (s : Text) → Lacks 13 s → Lacks 13 (trim_newlines s)
unfolding trim_newlines
Lacks-trim_newlines s h =
    all-trim_end_by (λ d. not (d == 13)) is_newline (trim_start_by is_newline s)
      (all-trim_start_by (λ d. not (d == 13)) is_newline s h)

-- The lines that the block holds, whatever it holds.
all_tidy-lines_of_block :
    (existing : Text) (found : Option (Text × Text × Text))
    → Lacks 13 existing
    → find_block existing ≡ found
    → all is_tidy (lines_of_block found) ≡ true
all_tidy-lines_of_block existing none h e = refl
all_tidy-lines_of_block existing (some (before, body, after)) h e =
    let whole = subst (Lacks 13) (append-find_block existing before body after e) h in
    let (_, from_mark) = Lacks-back 13 before (begin_mark ++ (body ++ (end_mark ++ after))) whole in
    let (_, from_body) = Lacks-back 13 begin_mark (body ++ (end_mark ++ after)) from_mark in
    let (clean, _) = Lacks-back 13 body (end_mark ++ after) from_body in
    all_tidy-kept_lines (trim_newlines body) (Lacks-trim_newlines body clean)

pub all_tidy-merged :
    (existing block_body : Text)
    → Lacks 13 existing
    → Lacks 13 block_body
    → all is_tidy (merge_lines (extract_block_lines existing) (kept_lines block_body)) ≡ true
unfolding extract_block_lines
all_tidy-merged existing block_body h k =
    all_tidy-merge_lines (lines_of_block (find_block existing)) (kept_lines block_body)
      (all_tidy-lines_of_block existing (find_block existing) h refl)
      (all_tidy-kept_lines block_body k)
