-- ===== src/DevSetup/Platform/Quotes.antt =====
-- When reading an os-release file panics (packages/dev-setup/src/platform.rs).
use epistl.Prelude.{
  ◌≡◌, refl, ◌∙◌, Bool, true, false, ◌||◌, Option, none, some, List, [], ◌∷◌, arith, any, ◌==◌,
  if◌then◌else◌, codes,
}
use epistl.Text.{Text, trim, strip_prefix}
use epistl.Text.Lines.{lines}
use epistl.DevSetup.Platform.{
  unquote, is_surrounded, inner, Ids, read_line, read_id, read_lines, and_then, family_for,
  parse_distro_family, lowered, set_id, set_like,
}

abbrev pub is_none {ℓ} : {A : Type ℓ} → Option A → Bool
is_none none = true
is_none (some a) = false

-- A text that is one quote, single or double, but for blanks around it.
abbrev pub one_quote : Text → Bool
one_quote [] = false
one_quote (c ∷ []) = c == b'"' || c == b'\''
one_quote (c ∷ d ∷ s) = false

abbrev pub lone_quote : Text → Bool
lone_quote s = one_quote (trim s)

-- `unquote` panics exactly on a lone quote.
unquote-lone_quote : (s : Text) → is_none (unquote s) ≡ lone_quote s
unfolding unquote is_surrounded
unquote-lone_quote s = by_text (trim s)
  where
    by_text :
        (t : Text)
        → is_none (if is_surrounded b'"' t || is_surrounded b'\'' t then inner t else some t)
          ≡ one_quote t
    by_text [] = refl
    by_text (c ∷ []) = ground arith
    by_text (c ∷ d ∷ t) = ground arith

abbrev pub quote_behind : Option Text → Option Text → Bool
quote_behind (some value) other = lone_quote value
quote_behind none none = false
quote_behind none (some value) = lone_quote value

-- A line that sets `ID` or `ID_LIKE` to a lone quote.
abbrev pub bad_line : Text → Bool
bad_line line =
    quote_behind (strip_prefix (codes "ID=") line) (strip_prefix (codes "ID_LIKE=") line)

set_id-none : (ids : Ids) (o : Option Text) → is_none (set_id ids (lowered o)) ≡ is_none o
set_id-none ids none = refl
set_id-none ids (some v) = refl

set_like-none : (ids : Ids) (o : Option Text) → is_none (set_like ids (lowered o)) ≡ is_none o
set_like-none ids none = refl
set_like-none ids (some v) = refl

read_line-bad_line : (ids : Ids) (line : Text) → is_none (read_line ids line) ≡ bad_line line
unfolding read_line
read_line-bad_line ids line =
    by_keys (strip_prefix (codes "ID=") line) (strip_prefix (codes "ID_LIKE=") line) refl
  where
    by_keys :
        (a b : Option Text)
        → strip_prefix (codes "ID_LIKE=") line ≡ b
        → is_none (read_id ids line a) ≡ quote_behind a b
    by_keys (some value) b e = set_id-none ids (unquote value) ∙ unquote-lone_quote value
    by_keys none none e = rw e refl
    by_keys none (some value) e =
        rw e (set_like-none ids (unquote value) ∙ unquote-lone_quote value)

read_lines-bad_line : (ls : List Text) (ids : Ids) → is_none (read_lines ls ids) ≡ any bad_line ls
unfolding read_lines
read_lines-bad_line [] ids = refl
read_lines-bad_line (line ∷ rest) ids =
    after (read_line ids line) (read_line-bad_line ids line) (λ v. read_lines-bad_line rest v)
  where
    after :
        (o : Option Ids)
        → is_none o ≡ bad_line line
        → ((v : Ids) → is_none (read_lines rest v) ≡ any bad_line rest)
        → is_none (and_then o (read_lines rest)) ≡ (bad_line line || any bad_line rest)
    after none e h = rw (← e) refl
    after (some v) e h = rw (← e) (h v)

-- Finding the family of a distribution panics exactly if the os-release file has a line that sets `ID` or
-- `ID_LIKE` to a single quote character.
pub parse_distro_family-bad_line :
    (os_release : Text) → is_none (parse_distro_family os_release) ≡ any bad_line (lines os_release)
unfolding parse_distro_family
parse_distro_family-bad_line os_release =
    same_none (read_lines (lines os_release) ([], []))
    ∙ read_lines-bad_line (lines os_release) ([], [])
  where
    same_none : (o : Option Ids) → is_none (family_for o) ≡ is_none o
    same_none none = refl
    same_none (some ids) = refl
