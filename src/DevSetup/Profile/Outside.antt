-- ===== src/DevSetup/Profile/Outside.antt =====
-- What a run leaves of the profile outside the block (packages/dev-setup/src/profile.rs).
use mathlib.Core.List.{append_assoc}
use epistl.Prelude.{
  ◌≡◌, refl, ap, sym, ◌∙◌, Option, some, List, [], ◌∷◌, ◌++◌, Bool-cases, inl, inr,
}
use epistl.Text.{Text, same, strip_prefix}
use epistl.Text.Laws.{eq_of_same}
use epistl.Text.Lines.{join_lines}
use epistl.DevSetup.Profile.{
  begin_mark, end_mark, find_block, block_of, choose_text, put_block, without_newline,
  extract_block_lines, replace_block, kept_lines, merge_lines, updated_text,
}
use epistl.DevSetup.Profile.Finding.{append-find_block}

-- The lines of the block after a run.
abbrev pub merged_lines : Text → Text → List Text
merged_lines existing block_body =
    merge_lines (extract_block_lines existing) (kept_lines block_body)

-- The block, with what stands before and behind it.
abbrev pub around : Text → List Text → Text → Text
around before ls after =
    before ++ (begin_mark ++ 10 ∷ (join_lines ls ++ 10 ∷ (end_mark ++ 10 ∷ after)))

pub block_of-append :
    (ls : List Text) (before after : Text)
    → before ++ (block_of ls ++ after) ≡ around before ls after
block_of-append ls before after =
    ap (λ (t : Text). before ++ (begin_mark ++ 10 ∷ t))
      (append_assoc (join_lines ls) (10 ∷ (end_mark ++ 10 ∷ [])) after
        ∙ ap (λ (t : Text). join_lines ls ++ 10 ∷ t) (append_assoc end_mark (10 ∷ []) after))

choose_text-some : (existing new_block s : Text) → (choose_text existing new_block (some s)).1 ≡ s
choose_text-some existing new_block s = elim (Bool-cases (same s existing)) [
  | inl e ↦ rw e (sym (eq_of_same s existing e))
  | inr e ↦ rw e refl
]

written :
    (existing new_block before body after : Text) (found : Option (Text × Text × Text))
    → found ≡ some (before, body, after)
    → (choose_text existing new_block (put_block new_block found)).1
      ≡ before ++ (new_block ++ without_newline after (strip_prefix (10 ∷ []) after))
written existing new_block before body after found h = rw h (
    choose_text-some existing new_block
      (before ++ (new_block ++ without_newline after (strip_prefix (10 ∷ []) after))))

-- With a block, what stands outside it is kept: only the block is written again.
pub updated_text-outside :
    (existing block_body before body after : Text)
    → find_block existing ≡ some (before, body, after)
    → (existing ≡ before ++ (begin_mark ++ (body ++ (end_mark ++ after))))
      × ((updated_text existing block_body).1
          ≡ around before
              (merged_lines existing block_body)
              (without_newline after (strip_prefix (10 ∷ []) after)))
unfolding updated_text replace_block
updated_text-outside existing block_body before body after h = (
  append-find_block existing before body after h,
  written existing (block_of (merged_lines existing block_body)) before body after
        (find_block existing) h
      ∙ block_of-append (merged_lines existing block_body) before
          (without_newline after (strip_prefix (10 ∷ []) after)),
)
