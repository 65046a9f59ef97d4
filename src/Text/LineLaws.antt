-- ===== src/Text/LineLaws.antt =====
-- Laws of `str::lines`: which lines it gives, and that lines written out are read back.
use epistl.Prelude.{
  ℕ, ◌≡◌, refl, ap, ◌∙◌, Bool, true, not, ◌&&◌, List, [], ◌∷◌, ◌++◌, arith, all, ◌==◌,
}
use epistl.Text.{Text}
use epistl.Text.Laws.{Lacks, Lacks-append, and-true}
use epistl.Text.Lines.{add_char, lines, split_lines, drop_returns, unlines}

-- A line with no line end in it.
abbrev pub is_clean : Text → Bool
is_clean l = all (λ d. not (d == 10) && not (d == 13)) l

abbrev pub all_clean : List Text → Bool
all_clean ls = all is_clean ls

pub drop_returns-Lacks : (s : Text) → Lacks 13 s → drop_returns s ≡ s
unfolding drop_returns
drop_returns-Lacks [] h = refl
drop_returns-Lacks (c ∷ s) h = ground (arith, drop_returns-Lacks s)

pub split_lines-append :
    (l r : Text) → is_clean l ≡ true → split_lines (l ++ 10 ∷ r) ≡ l ∷ split_lines r
unfolding split_lines
split_lines-append [] r h = refl
split_lines-append (c ∷ l) r h = ground (arith, split_lines-append l r)

split_lines-unlines : (ls : List Text) → all_clean ls ≡ true → split_lines (unlines ls) ≡ ls
unfolding unlines split_lines
split_lines-unlines [] h = refl
split_lines-unlines (l ∷ ls) h =
    let (clean, rest) = and-true (is_clean l) (all_clean ls) h in
    split_lines-append l (unlines ls) clean ∙ ap (λ r. l ∷ r) (split_lines-unlines ls rest)

add_char-clean :
    (c : ℕ) (ls : List Text)
    → not (c == 13) ≡ true
    → all_clean ls ≡ true
    → all_clean (add_char c ls) ≡ true
add_char-clean c [] h k = ground arith
add_char-clean c (l ∷ ls) h k = ground arith

pub clean-Lacks : (l : Text) → is_clean l ≡ true → Lacks 13 l
clean-Lacks [] h = refl
clean-Lacks (c ∷ l) h = ground (arith, clean-Lacks l)

all_clean-split_lines : (s : Text) → Lacks 13 s → all_clean (split_lines s) ≡ true
unfolding split_lines
all_clean-split_lines [] h = refl
all_clean-split_lines (c ∷ s) h =
    let (fits, rest) = and-true (not (c == 13)) (all (λ d. not (d == 13)) s) h in
    add_char-clean c (split_lines s) fits (all_clean-split_lines s rest)

Lacks-unlines : (ls : List Text) → all_clean ls ≡ true → Lacks 13 (unlines ls)
unfolding unlines
Lacks-unlines [] h = refl
Lacks-unlines (l ∷ ls) h =
    let (clean, rest) = and-true (is_clean l) (all_clean ls) h in
    Lacks-append 13 l (10 ∷ unlines ls) (clean-Lacks l clean) (Lacks-unlines ls rest)

-- A text with no carriage return has clean lines; clean lines, each written with a newline, are read back.
pub all_clean-lines : (s : Text) → Lacks 13 s → all_clean (lines s) ≡ true
unfolding lines
all_clean-lines s h = rw (drop_returns-Lacks s h) (all_clean-split_lines s h)

pub lines-unlines : (ls : List Text) → all_clean ls ≡ true → lines (unlines ls) ≡ ls
unfolding lines
lines-unlines ls h =
    ap split_lines (drop_returns-Lacks (unlines ls) (Lacks-unlines ls h)) ∙ split_lines-unlines ls h
