-- ===== src/DevSetup/Paths.antt =====
-- `Path` of the standard library on Unix, as far as packages/dev-setup uses it: joining, parents, and the
-- comparison of paths by their components.
use epistl.Prelude.{
  ℕ, Bool, false, not, ◌&&◌, ◌||◌, Option, none, some, List, [], ◌∷◌, ◌++◌, retain, ◌==◌,
  if◌then◌else◌, codes,
}
use epistl.Text.{Text, same, is_empty, split_by, same_texts}

unfoldable pub ends_with_slash : Text → Bool
ends_with_slash [] = false
ends_with_slash (c ∷ []) = c == b'/'
ends_with_slash (c ∷ d ∷ s) = ends_with_slash (d ∷ s)

-- `Path::join` with a relative path.
unfoldable pub join : Text → Text → Text
unfolding is_empty ends_with_slash
join base part = if is_empty base || ends_with_slash base then base ++ part else base ++ b'/' ∷ part

abbrev pub is_slash : ℕ → Bool
is_slash c = c == b'/'

-- The root, or a leading `.`, and the body behind it.
unfoldable pub split_start : Text → Text × Text
split_start [] = ([], [])
split_start (c ∷ []) = if c == b'/' || c == b'.' then (c ∷ [], []) else ([], c ∷ [])
split_start (c ∷ d ∷ s) =
    if c == b'/' || (c == b'.' && d == b'/') then (c ∷ [], d ∷ s) else ([], c ∷ d ∷ s)

-- A segment that is no component of a path's body.
unfoldable pub is_void : Text → Bool
unfolding is_empty same
is_void segment = is_empty segment || same segment (codes ".")

unfoldable pub drop_void : List Text → List Text
unfolding is_void
drop_void [] = []
drop_void (s ∷ ss) = if is_void s then drop_void ss else s ∷ ss

unfoldable pub reverse_onto : List Text → List Text → List Text
reverse_onto acc [] = acc
reverse_onto acc (s ∷ ss) = reverse_onto (s ∷ acc) ss

unfoldable pub join_slashes : List Text → Text
join_slashes [] = []
join_slashes (a ∷ []) = a
join_slashes (a ∷ b ∷ rest) = a ++ b'/' ∷ join_slashes (b ∷ rest)

-- The last component is taken off; without one, a leading `.` is.
abbrev pub without_last : Text → List Text → Option Text
without_last start (s ∷ ss) = some (start ++ join_slashes (reverse_onto [] (drop_void ss)))
without_last [] [] = none
without_last (c ∷ start) [] = if c == b'.' then some [] else none

abbrev parent_of : Text × Text → Option Text
parent_of (start, body) = without_last start (drop_void (reverse_onto [] (split_by is_slash body)))

-- `Path::parent`.
unfoldable pub parent : Text → Option Text
unfolding split_start split_by drop_void reverse_onto join_slashes
parent path = parent_of (split_start path)

abbrev pub components : Text × Text → Text × List Text
components (start, body) = (start, retain (λ s. not (is_void s)) (split_by is_slash body))

abbrev pub same_components : Text × List Text → Text × List Text → Bool
same_components (start, ss) (other, ts) = same start other && same_texts ss ts

-- `==` of paths.
unfoldable pub same_path : Text → Text → Bool
unfolding split_start split_by is_void same same_texts
same_path p q = same_components (components (split_start p)) (components (split_start q))
