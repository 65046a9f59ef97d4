-- ===== src/DevSetup/Profile.antt =====
-- The block of exports in the user's shell profile (packages/dev-setup/src/profile.rs).
use epistl.Prelude.{
  ℕ, Bool, true, false, not, Option, none, some, List, [], ◌∷◌, ◌++◌, map, retain, ◌==◌,
  if◌then◌else◌, codes,
}
use epistl.Text.{
  Text, same, contains, is_empty, cut, trim_end, trim_start_by, trim_end_by, strip_prefix,
}
use epistl.Text.Lines.{lines, join_lines}
pub mod Finding
pub mod Merging
pub mod Reading
pub mod Tidy
pub mod Outside
pub mod Again

abbrev pub begin_mark : Text
begin_mark = codes "# >>> epistl dev-setup >>>"

abbrev pub end_mark : Text
end_mark = codes "# <<< epistl dev-setup <<<"

pub data ProfileOutcome : Type 0 where
  updated : ProfileOutcome
  already_present : ProfileOutcome

-- `lines().map(str::trim_end).filter(|l| !l.is_empty())`.
unfoldable pub kept_lines : Text → List Text
unfolding lines trim_end is_empty
kept_lines body = retain (λ l. not (is_empty l)) (map trim_end (lines body))

abbrev pub is_newline : ℕ → Bool
is_newline c = c == 10

unfoldable pub trim_newlines : Text → Text
unfolding trim_start_by trim_end_by
trim_newlines s = trim_end_by is_newline (trim_start_by is_newline s)

-- The text before the block, its body, and the text behind it. The end mark is looked for from the
-- begin mark on; it begins with the only `#` of the begin mark, and differs from it, so it is not found
-- before the begin mark's end.
abbrev pub body_at : Text → Option (Text × Text) → Option (Text × Text × Text)
body_at before none = none
body_at before (some (body, after)) = some (before, body, after)

abbrev pub block_at : Option (Text × Text) → Option (Text × Text × Text)
block_at none = none
block_at (some (before, rest)) = body_at before (cut end_mark rest)

unfoldable pub find_block : Text → Option (Text × Text × Text)
unfolding cut
find_block existing = block_at (cut begin_mark existing)

abbrev pub lines_of_block : Option (Text × Text × Text) → List Text
lines_of_block none = []
lines_of_block (some (before, body, after)) = kept_lines (trim_newlines body)

-- The lines in the block; none if there is no block.
unfoldable pub extract_block_lines : Text → List Text
unfolding find_block kept_lines trim_newlines
extract_block_lines existing = lines_of_block (find_block existing)

unfoldable pub merge_lines : List Text → List Text → List Text
unfolding contains
merge_lines out [] = out
merge_lines out (line ∷ incoming) =
    merge_lines (if contains out line then out else out ++ line ∷ []) incoming

abbrev pub without_newline : Text → Option Text → Text
without_newline s none = s
without_newline s (some rest) = rest

abbrev pub put_block : Text → Option (Text × Text × Text) → Option Text
put_block new_block none = none
put_block new_block (some (before, body, after)) =
    some (before ++ (new_block ++ without_newline after (strip_prefix (10 ∷ []) after)))

unfoldable pub replace_block : Text → Text → Option Text
unfolding find_block strip_prefix
replace_block existing new_block = put_block new_block (find_block existing)

abbrev pub block_of : List Text → Text
block_of merged = begin_mark ++ 10 ∷ (join_lines merged ++ 10 ∷ (end_mark ++ 10 ∷ []))

abbrev pub ends_with_newline : Text → Bool
ends_with_newline [] = false
ends_with_newline (c ∷ []) = c == 10
ends_with_newline (c ∷ d ∷ s) = ends_with_newline (d ∷ s)

-- What a new block is appended to.
unfoldable pub ended : Text → Text
unfolding is_empty
ended existing =
    if is_empty existing
    then existing
    else if ends_with_newline existing
    then existing
    else existing ++ 10 ∷ []

abbrev pub choose_text : Text → Text → Option Text → ProfileOutcome × Text
choose_text existing new_block (some s) =
    if same s existing then (already_present, existing) else (updated, s)
choose_text existing new_block none = (updated, ended existing ++ 10 ∷ new_block)

-- What becomes of the profile's text.
unfoldable pub updated_text : Text → Text → ProfileOutcome × Text
unfolding extract_block_lines merge_lines kept_lines replace_block join_lines ended same
updated_text existing block_body =
    let merged = merge_lines (extract_block_lines existing) (kept_lines block_body) in
    choose_text existing (block_of merged) (replace_block existing (block_of merged))

-- Whether the file can be read and written, and what a write that fails leaves.
pub record ProfileIo : Type 0 where
  pub readable : Bool
  pub writable : Bool
  pub left : Text

abbrev pub existing_text : Option Text → Text
existing_text none = []
existing_text (some s) = s

abbrev pub write_text :
    ProfileIo → Option Text → ProfileOutcome × Text → Option ProfileOutcome × Option Text
write_text io file (already_present, s) = (some already_present, file)
write_text io file (updated, s) =
    if io.writable then (some updated, some s) else (none, some io.left)

-- The outcome, unless reading or writing fails, and the file afterwards; `none` is a file that is not there.
unfoldable pub ensure_profile_block :
    ProfileIo → Text → Option Text → Option ProfileOutcome × Option Text
unfolding updated_text
ensure_profile_block io block_body none = write_text io none (updated_text [] block_body)
ensure_profile_block io block_body (some existing) =
    if io.readable
    then write_text io (some existing) (updated_text existing block_body)
    else (none, some existing)
