-- ===== src/DevSetup/Profile/Again.antt =====
-- That a second run changes nothing (packages/dev-setup/src/profile.rs).
use mathlib.Core.List.{append_assoc, append-nil}
use epistl.Prelude.{
  ◌≡◌, refl, ap, sym, ◌∙◌, true, Option, none, some, List, [], ◌∷◌, ◌++◌, all, Bool-cases,
  Option-cases, inl, inr,
}
use epistl.Text.{Text, cut, is_empty, strip_prefix}
use epistl.Text.Laws.{Lacks, same_refl, append-cut}
use epistl.Text.Searching.{shift, cut-append_self, cut-append_other, cut-newline}
use epistl.Text.Lines.{join_lines}
use epistl.DevSetup.Profile.{
  begin_mark, end_mark, already_present, find_block, block_at, body_at, block_of, choose_text,
  put_block, lines_of_block, without_newline, extract_block_lines, replace_block, kept_lines,
  merge_lines, updated_text, ended, ends_with_newline,
}
use epistl.DevSetup.Profile.Finding.{find_block_parts}
use epistl.DevSetup.Profile.Tidy.{all_tidy-merged}
use epistl.DevSetup.Profile.Merging.{merge_lines_again}
use epistl.DevSetup.Profile.Reading.{is_tidy, kept_lines-trim_newlines}
use epistl.DevSetup.Profile.Outside.{around, merged_lines, block_of-append, updated_text-outside}

-- A profile whose block was written with these lines: where it is found, and what is read from it.
cut-end_mark :
    (ls : List Text) (after : Text)
    → cut end_mark (join_lines ls) ≡ none
    → cut end_mark (10 ∷ (join_lines ls ++ 10 ∷ (end_mark ++ after)))
      ≡ some (10 ∷ (join_lines ls ++ 10 ∷ []), after)
cut-end_mark ls after h =
    cut-newline end_mark [] (join_lines ls ++ 10 ∷ (end_mark ++ after)) (unfold is_empty in refl)
      refl (unfold cut in refl)
    ∙ ap (shift (10 ∷ [])) (
        cut-newline end_mark (join_lines ls) (end_mark ++ after) (unfold is_empty in refl) refl h
        ∙ ap (shift (join_lines ls ++ 10 ∷ []))
            (cut-append_self end_mark after (unfold is_empty in refl)))
    ∙ ap (λ (t : Text). some (10 ∷ t, after)) (append-nil (join_lines ls ++ 10 ∷ []))

find_block-around :
    (ls : List Text) (before after : Text)
    → cut end_mark (join_lines ls) ≡ none
    → cut begin_mark (around before ls after)
      ≡ some (before, 10 ∷ (join_lines ls ++ 10 ∷ (end_mark ++ 10 ∷ after)))
    → find_block (around before ls after)
      ≡ some (before, 10 ∷ (join_lines ls ++ 10 ∷ []), 10 ∷ after)
unfolding find_block
find_block-around ls before after h found =
    ap block_at found ∙ ap (body_at before) (cut-end_mark ls (10 ∷ after) h)

lines_around :
    (ls : List Text) (before after : Text)
    → all is_tidy ls ≡ true
    → find_block (around before ls after)
      ≡ some (before, 10 ∷ (join_lines ls ++ 10 ∷ []), 10 ∷ after)
    → extract_block_lines (around before ls after) ≡ ls
unfolding extract_block_lines
lines_around ls before after tidy found = ap lines_of_block found ∙ kept_lines-trim_newlines ls tidy

choose_text-same :
    (existing new_block s : Text)
    → s ≡ existing
    → choose_text existing new_block (some s) ≡ (already_present, existing)
choose_text-same existing new_block s e = rw (e, same_refl existing) refl

unchanged :
    (existing : Text) (merged ls : List Text) (before body after : Text)
    (found : Option (Text × Text × Text))
    → merged ≡ ls
    → found ≡ some (before, body, 10 ∷ after)
    → before ++ (block_of ls ++ after) ≡ existing
    → choose_text existing (block_of merged) (put_block (block_of merged) found)
      ≡ (already_present, existing)
unfolding strip_prefix
unchanged existing merged ls before body after found e f same_text =
    rw (e, f) (choose_text-same existing (block_of ls) (before ++ (block_of ls ++ after)) same_text)

-- A run on a profile that has the lines already changes nothing.
settled :
    (ls : List Text) (before after block_body : Text)
    → all is_tidy ls ≡ true
    → cut end_mark (join_lines ls) ≡ none
    → merge_lines ls (kept_lines block_body) ≡ ls
    → cut begin_mark (around before ls after)
      ≡ some (before, 10 ∷ (join_lines ls ++ 10 ∷ (end_mark ++ 10 ∷ after)))
    → updated_text (around before ls after) block_body ≡ (already_present, around before ls after)
unfolding updated_text replace_block strip_prefix
settled ls before after block_body tidy unmarked same_lines found =
    let here = find_block-around ls before after unmarked found in
    let again = lines_around ls before after tidy here in
    unchanged (around before ls after)
      (merge_lines (extract_block_lines (around before ls after)) (kept_lines block_body)) ls before
      (10 ∷ (join_lines ls ++ 10 ∷ [])) after (find_block (around before ls after))
      (ap (λ (out : List Text). merge_lines out (kept_lines block_body)) again ∙ same_lines) here
      (block_of-append ls before after)

begin_mark-absent : cut begin_mark [] ≡ none
unfolding cut is_empty
begin_mark-absent = refl

cut-ended :
    (existing : Text) → cut begin_mark existing ≡ none → cut begin_mark (ended existing) ≡ none
unfolding ended
cut-ended existing h = elim (Bool-cases (is_empty existing)) [
  | inl e ↦ rw e h
  | inr e ↦ elim (Bool-cases (ends_with_newline existing)) [
    | inl f ↦ rw (e, f) h
    | inr f ↦ rw (e, f) ended_line
  ]
]
  where
    ended_line : cut begin_mark (existing ++ 10 ∷ []) ≡ none
    ended_line =
        cut-newline begin_mark existing [] (unfold is_empty in refl) refl h
        ∙ ap (shift (existing ++ 10 ∷ [])) begin_mark-absent

-- The block that is appended is the first one.
cut-appended :
    (existing rest : Text)
    → cut begin_mark existing ≡ none
    → cut begin_mark ((ended existing ++ 10 ∷ []) ++ (begin_mark ++ rest))
      ≡ some (ended existing ++ 10 ∷ [], rest)
cut-appended existing rest h =
    ap (cut begin_mark) (append_assoc (ended existing) (10 ∷ []) (begin_mark ++ rest))
    ∙ cut-newline begin_mark (ended existing) (begin_mark ++ rest) (unfold is_empty in refl) refl
        (cut-ended existing h)
    ∙ ap (shift (ended existing ++ 10 ∷ []))
        (cut-append_self begin_mark rest (unfold is_empty in refl))
    ∙ ap (λ (t : Text). some (t, rest)) (append-nil (ended existing ++ 10 ∷ []))

-- The block that is written again is the first one, as before.
cut-rewritten :
    (existing before rest t : Text)
    → cut begin_mark existing ≡ some (before, rest)
    → cut begin_mark (before ++ (begin_mark ++ t)) ≡ some (before, t)
cut-rewritten existing before rest t h =
    cut-append_other begin_mark before rest t (unfold is_empty in refl)
      (ap (cut begin_mark) (sym (append-cut begin_mark existing before rest h)) ∙ h)

appended :
    (existing block_body : Text)
    → find_block existing ≡ none
    → (updated_text existing block_body).1
      ≡ around (ended existing ++ 10 ∷ []) (merged_lines existing block_body) []
unfolding updated_text replace_block
appended existing block_body h =
    ap
      (λ (o : Option (Text × Text × Text)).
        (choose_text existing (block_of (merged_lines existing block_body))
          (put_block (block_of (merged_lines existing block_body)) o)).1)
      h
    ∙ sym (append_assoc (ended existing) (10 ∷ []) (block_of (merged_lines existing block_body)))

same_again :
    (s t block_body : Text)
    → s ≡ t
    → updated_text t block_body ≡ (already_present, t)
    → updated_text s block_body ≡ (already_present, s)
same_again s t block_body e h = rw e h

-- A second run with the same lines finds them present and leaves the profile as the first left it,
-- where the merged lines hold no end mark, a begin mark in the profile has its end mark, and no carriage
-- return is in the profile or in the new lines.
pub updated_text_again :
    (existing block_body : Text)
    → (find_block existing ≡ none → cut begin_mark existing ≡ none)
    → Lacks 13 existing
    → Lacks 13 block_body
    → cut end_mark (join_lines (merged_lines existing block_body)) ≡ none
    → updated_text (updated_text existing block_body).1 block_body
      ≡ (already_present, (updated_text existing block_body).1)
updated_text_again existing block_body closed clean clean_lines unmarked =
    let tidy = all_tidy-merged existing block_body clean clean_lines in
    let ls = merged_lines existing block_body in
    let merged = merge_lines_again (extract_block_lines existing) (kept_lines block_body) in
    elim (Option-cases (find_block existing)) [
      | inl absent ↦
          same_again (updated_text existing block_body).1 (around (ended existing ++ 10 ∷ []) ls [])
            block_body (appended existing block_body absent)
            (settled ls (ended existing ++ 10 ∷ []) [] block_body tidy unmarked merged (
              cut-appended existing (10 ∷ (join_lines ls ++ 10 ∷ (end_mark ++ 10 ∷ [])))
                (closed absent)))
      | inr ((before, body, after), found) ↦
          let rest_after = without_newline after (strip_prefix (10 ∷ []) after) in
          let (rest, begins, ends) = find_block_parts existing before body after found in
          same_again (updated_text existing block_body).1 (around before ls rest_after) block_body
            (updated_text-outside existing block_body before body after found).1
            (settled ls before rest_after block_body tidy unmarked merged (
              cut-rewritten existing before rest
                (10 ∷ (join_lines ls ++ 10 ∷ (end_mark ++ 10 ∷ rest_after))) begins))
    ]
