-- ===== src/DevSetup/Docker/Quoting.antt =====
-- How a shell reads what `shell_join` writes (packages/dev-setup/src/tools/docker.rs).
use epistl.Prelude.{ℕ, ◌||◌, Option, none, some, List, [], ◌∷◌, ◌==◌, if◌then◌else◌}
use epistl.Text.{Text}
use epistl.DevSetup.Docker.{is_plain}

pub data Mode : Type 0 where
  between : Mode
  bare : Mode
  quoted : Mode
  escaped : Mode

unfoldable pub outside : ℕ → Mode
outside c = if c == b'\'' then quoted else if c == b'\\' then escaped else bare

unfoldable pub next_mode : Mode → ℕ → Mode
unfolding outside
next_mode between c = if c == b' ' then between else outside c
next_mode bare c = if c == b' ' then between else outside c
next_mode quoted c = if c == b'\'' then bare else quoted
next_mode escaped c = bare

abbrev pub push : ℕ → Option (List Text) → Option (List Text)
push c none = none
push c (some []) = some ((c ∷ []) ∷ [])
push c (some (w ∷ ws)) = some ((c ∷ w) ∷ ws)

abbrev pub end_word : Option (List Text) → Option (List Text)
end_word none = none
end_word (some ws) = some ([] ∷ ws)

-- A character outside quotes that is no plain one has a meaning of its own, which is not read here.
unfoldable pub take_bare : ℕ → Option (List Text) → Option (List Text)
take_bare c r = if c == b'\'' || c == b'\\' then r else if is_plain c then push c r else none

unfoldable pub take_char : Mode → ℕ → Option (List Text) → Option (List Text)
unfolding take_bare
take_char between c r = if c == b' ' then r else take_bare c r
take_char bare c r = if c == b' ' then end_word r else take_bare c r
take_char quoted c r = if c == b'\'' then r else push c r
take_char escaped c r = push c r

-- The words of a command line, by the rules of POSIX shells: blanks part words, quotes keep what they
-- enclose, a backslash keeps one character. But for `between`, the first word is the current one's rest.
unfoldable pub shell_words : Mode → Text → Option (List Text)
unfolding next_mode take_char
shell_words between [] = some []
shell_words bare [] = some ([] ∷ [])
shell_words quoted [] = none
shell_words escaped [] = none
shell_words m (c ∷ s) = take_char m c (shell_words (next_mode m c) s)
