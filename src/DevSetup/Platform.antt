-- ===== src/DevSetup/Platform.antt =====
-- Which package manager a Linux host has, by its os-release file (packages/dev-setup/src/platform.rs).
use epistl.Prelude.{
  ℕ, Bool, true, false, not, ◌&&◌, ◌||◌, Option, none, some, List, [], ◌∷◌, ◌++◌, map, ◌==◌,
  if◌then◌else◌, codes, ◌⊎◌, inl, inr,
}
use epistl.Text.{ascii_lower, Text, trim, strip_prefix, cut}
use epistl.Text.Lines.{lines}
use epistl.DevSetup.{DistroFamily, apt, dnf, pacman}
pub mod Quotes

abbrev pub starts_with_char : ℕ → Text → Bool
starts_with_char q [] = false
starts_with_char q (c ∷ s) = c == q

abbrev pub ends_with_char : ℕ → Text → Bool
ends_with_char q [] = false
ends_with_char q (c ∷ []) = c == q
ends_with_char q (c ∷ d ∷ s) = ends_with_char q (d ∷ s)

unfoldable pub is_surrounded : ℕ → Text → Bool
is_surrounded q s = starts_with_char q s && ends_with_char q s

abbrev pub without_last : Text → Text
without_last [] = []
without_last (c ∷ []) = []
without_last (c ∷ d ∷ s) = c ∷ without_last (d ∷ s)

-- `&s[1..s.len() - 1]`, which panics on a text of one character.
abbrev pub inner : Text → Option Text
inner [] = none
inner (c ∷ []) = none
inner (c ∷ d ∷ s) = some (without_last (d ∷ s))

-- `none` is a panic.
unfoldable pub unquote : Text → Option Text
unfolding trim is_surrounded
unquote s =
    let t = trim s in if is_surrounded b'"' t || is_surrounded b'\'' t then inner t else some t

abbrev pub lowered : Option Text → Option Text
lowered none = none
lowered (some s) = some (map ascii_lower s)

-- The values of `ID` and `ID_LIKE` so far.
abbrev pub Ids : Type 0
Ids = Text × Text

abbrev pub set_id : Ids → Option Text → Option Ids
set_id (id, like) none = none
set_id (id, like) (some v) = some (v, like)

abbrev pub set_like : Ids → Option Text → Option Ids
set_like (id, like) none = none
set_like (id, like) (some v) = some (id, v)

abbrev pub read_like : Ids → Option Text → Option Ids
read_like ids none = some ids
read_like ids (some rest) = set_like ids (lowered (unquote rest))

abbrev pub read_id : Ids → Text → Option Text → Option Ids
read_id ids line (some rest) = set_id ids (lowered (unquote rest))
read_id ids line none = read_like ids (strip_prefix (codes "ID_LIKE=") line)

unfoldable pub read_line : Ids → Text → Option Ids
unfolding unquote strip_prefix ascii_lower
read_line ids line = read_id ids line (strip_prefix (codes "ID=") line)

abbrev pub and_then : Option Ids → (Ids → Option Ids) → Option Ids
and_then none f = none
and_then (some ids) f = f ids

unfoldable pub read_lines : List Text → Ids → Option Ids
unfolding read_line
read_lines [] ids = some ids
read_lines (line ∷ rest) ids = and_then (read_line ids line) (read_lines rest)

abbrev pub found : Option (Text × Text) → Bool
found none = false
found (some parts) = true

-- `haystack.contains(word)`.
abbrev pub has : Text → Text → Bool
has haystack word = found (cut word haystack)

unfoldable pub family_of : Text → Text → DistroFamily ⊎ Text
unfolding cut
family_of id like =
    let haystack = b' ' ∷ (id ++ b' ' ∷ (like ++ b' ' ∷ [])) in
    if has haystack (codes " debian ") || has haystack (codes " ubuntu ")
    then inl apt
    else if has haystack (codes " rhel ")
        || has haystack (codes " fedora ")
        || has haystack (codes " centos ")
        || has haystack (codes " rocky ")
        || has haystack (codes " alma ")
    then inl dnf
    else if has haystack (codes " arch ")
    then inl pacman
    else inr (
        codes "unsupported Linux distro (ID="
        ++ (id ++ codes "). Supported families: apt, dnf, pacman"))

abbrev pub family_for : Option Ids → Option (DistroFamily ⊎ Text)
family_for none = none
family_for (some (id, like)) = some (family_of id like)

-- `none` is a panic, and the right side the message of an unsupported one.
unfoldable pub parse_distro_family : Text → Option (DistroFamily ⊎ Text)
unfolding read_lines family_of lines
parse_distro_family os_release = family_for (read_lines (lines os_release) ([], []))
