-- ===== src/Text.antt =====
-- Text as the program's `&str` and `String` hold it: a list of code points, with the functions of
-- `str` that the worktree tools and packages/dev-setup use.
use epistl.Prelude.{
  ℕ, ◌+◌, ◌-◌, Bool, true, false, not, ◌&&◌, ◌||◌, Option, none, some, List, [], ◌∷◌, ◌++◌, map,
  ltb, leb, ◌==◌, if◌then◌else◌, any, codes, String,
}
pub mod Laws
pub mod Lines
pub mod LineLaws
pub mod Searching
pub mod Numbers

abbrev pub Text : Type 0
Text = List ℕ

-- `a == b`.
unfoldable pub same : Text → Text → Bool
same [] [] = true
same [] (d ∷ t) = false
same (c ∷ s) [] = false
same (c ∷ s) (d ∷ t) = c == d && same s t

-- `set.contains(x)`.
unfoldable pub contains : List Text → Text → Bool
unfolding same
contains xs t = any (λ x. same x t) xs

unfoldable pub is_empty : Text → Bool
is_empty [] = true
is_empty (c ∷ s) = false

-- How many bytes UTF-8 takes for a code point, and for a text: `str::len`.
unfoldable pub len_utf8 : ℕ → ℕ
len_utf8 c = if ltb c 0x80 then 1 else if ltb c 0x800 then 2 else if ltb c 0x10000 then 3 else 4

unfoldable pub byte_len : Text → ℕ
unfolding len_utf8
byte_len [] = 0
byte_len (c ∷ s) = len_utf8 c + byte_len s

-- `s.strip_prefix(p)`.
unfoldable pub strip_prefix : Text → Text → Option Text
strip_prefix [] s = some s
strip_prefix (c ∷ p) [] = none
strip_prefix (c ∷ p) (d ∷ s) = if c == d then strip_prefix p s else none

abbrev pub cut_here : Option Text → ℕ → Option (Text × Text) → Option (Text × Text)
cut_here (some rest) c later = some ([], rest)
cut_here none c none = none
cut_here none c (some (before, rest)) = some (c ∷ before, rest)

-- `s.find(m)` with the slices before and after the place that it finds.
unfoldable pub cut : Text → Text → Option (Text × Text)
unfolding strip_prefix is_empty
cut m [] = if is_empty m then some ([], []) else none
cut m (c ∷ s) = cut_here (strip_prefix m (c ∷ s)) c (cut m s)

-- `s.split(c).next()`: what stands before the first `c`.
unfoldable pub before_char : ℕ → Text → Text
before_char c [] = []
before_char c (d ∷ s) = if d == c then [] else d ∷ before_char c s

-- `char::is_whitespace`.
unfoldable pub is_whitespace : ℕ → Bool
is_whitespace c =
    (leb 9 c && leb c 13)
    || c == 32
    || c == 0x85
    || c == 0xa0
    || c == 0x1680
    || (leb 0x2000 c && leb c 0x200a)
    || c == 0x2028
    || c == 0x2029
    || c == 0x202f
    || c == 0x205f
    || c == 0x3000

unfoldable pub trim_start_by : (ℕ → Bool) → Text → Text
trim_start_by p [] = []
trim_start_by p (c ∷ s) = if p c then trim_start_by p s else c ∷ s

abbrev pub keep_char : (ℕ → Bool) → ℕ → Text → Text
keep_char p c [] = if p c then [] else c ∷ []
keep_char p c (d ∷ s) = c ∷ d ∷ s

unfoldable pub trim_end_by : (ℕ → Bool) → Text → Text
trim_end_by p [] = []
trim_end_by p (c ∷ s) = keep_char p c (trim_end_by p s)

unfoldable pub trim_end : Text → Text
unfolding trim_end_by is_whitespace
trim_end s = trim_end_by is_whitespace s

unfoldable pub trim : Text → Text
unfolding trim_start_by trim_end
trim s = trim_end (trim_start_by is_whitespace s)

-- `s.replace(c, "cc")` for a quote `c`.
unfoldable pub double_char : ℕ → Text → Text
double_char c [] = []
double_char c (d ∷ s) = (if d == c then c ∷ c ∷ [] else d ∷ []) ++ double_char c s

abbrev pub push_part : ℕ → List Text → List Text
push_part c [] = (c ∷ []) ∷ []
push_part c (p ∷ ps) = (c ∷ p) ∷ ps

abbrev pub add_part : (ℕ → Bool) → ℕ → List Text → List Text
add_part p c ps = if p c then [] ∷ ps else push_part c ps

-- `s.split(p)` for a test on characters.
unfoldable pub split_by : (ℕ → Bool) → Text → List Text
split_by p [] = [] ∷ []
split_by p (c ∷ s) = add_part p c (split_by p s)

-- `==` of slices of texts.
unfoldable pub same_texts : List Text → List Text → Bool
unfolding same
same_texts [] [] = true
same_texts [] (t ∷ ts) = false
same_texts (s ∷ ss) [] = false
same_texts (s ∷ ss) (t ∷ ts) = same s t && same_texts ss ts

-- `to_ascii_lowercase` of a character.
unfoldable pub ascii_lower : ℕ → ℕ
ascii_lower c = if leb b'A' c && leb c b'Z' then c + 32 else c
