-- ===== src/Text/Lines.antt =====
-- `str::lines` and `join`, as packages/dev-setup and the worktree tools use them.
use epistl.Prelude.{ℕ, Bool, false, ◌&&◌, List, [], ◌∷◌, ◌++◌, ◌==◌, if◌then◌else◌}
use epistl.Text.{Text}

abbrev pub starts_with_newline : Text → Bool
starts_with_newline [] = false
starts_with_newline (c ∷ s) = c == 10

-- A carriage return directly before a newline belongs to the line's end.
unfoldable pub drop_returns : Text → Text
drop_returns [] = []
drop_returns (c ∷ s) = (if c == 13 && starts_with_newline s then [] else c ∷ []) ++ drop_returns s

abbrev pub push_char : ℕ → List Text → List Text
push_char c [] = (c ∷ []) ∷ []
push_char c (l ∷ ls) = (c ∷ l) ∷ ls

abbrev pub add_char : ℕ → List Text → List Text
add_char c ls = if c == 10 then [] ∷ ls else push_char c ls

unfoldable pub split_lines : Text → List Text
split_lines [] = []
split_lines (c ∷ s) = add_char c (split_lines s)

-- `s.lines()`: a newline at the end starts no line of its own.
unfoldable pub lines : Text → List Text
unfolding split_lines drop_returns
lines s = split_lines (drop_returns s)

-- `lines.join("\n")`.
unfoldable pub join_lines : List Text → Text
join_lines [] = []
join_lines (l ∷ []) = l
join_lines (l ∷ m ∷ ls) = l ++ 10 ∷ join_lines (m ∷ ls)

-- Each line with a newline behind it.
unfoldable pub unlines : List Text → Text
unlines [] = []
unlines (l ∷ ls) = l ++ 10 ∷ unlines ls
