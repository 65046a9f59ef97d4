-- ===== src/DevSetup/Mobile/Majors.antt =====
-- Which texts `java_major_ok` and the search for an accepted number pass
-- (packages/dev-setup/src/tools/android.rs).
use epistl.Prelude.{
  ℕ, zero, suc, ◌+◌, ◌*◌, ◌≤◌, ◌≡◌, refl, ap, ◌∙◌, Bool, true, false, not, ◌&&◌, Option, none, some,
  List, [], ◌∷◌, ◌++◌, any, is_some, ◌==◌, arith, Bool-cases, inl, inr,
}
use epistl.Text.{
  Text, split_by, push_part, contains, same, cut, cut_here, is_empty, strip_prefix, trim_start_by,
  trim_end_by, is_whitespace, keep_char,
}
use epistl.Text.Laws.{eq_of_same}
use epistl.Text.Numbers.{parse_u32, parse_digits, is_digit}
use epistl.Text.Searching.{cut-append_self}
use epistl.DevSetup.Mobile.Jdk.{
  accepted, mentions, java_major_ok, trim_matches, is_accepted, token_ok,
}

is_some-cut_here :
    (o : Option Text) (c : ℕ) (later : Option (Text × Text))
    → is_some later ≡ true
    → is_some (cut_here o c later) ≡ true
is_some-cut_here (some rest) c later h = refl
is_some-cut_here none c none h = cc
is_some-cut_here none c (some parts) h = refl

-- What a text contains is found.
is_some-cut :
    (m before after : Text) → is_empty m ≡ false → is_some (cut m (before ++ (m ++ after))) ≡ true
unfolding cut
is_some-cut m [] after n = rw (cut-append_self m after n) refl
is_some-cut m (c ∷ before) after n =
    is_some-cut_here (strip_prefix m (c ∷ before ++ (m ++ after))) c _
      (is_some-cut m before after n)

same-any :
    (p : Text → Bool) (m : Text) (ms : List Text)
    → any (λ x. same x m) ms ≡ true
    → p m ≡ true
    → any p ms ≡ true
same-any p m [] h k = cc
same-any p m (x ∷ ms) h k = elim (Bool-cases (same x m)) [
  | inl e ↦ rw (ap p (eq_of_same x m e), k) refl
  | inr n ↦ ground (arith, same-any p m ms)
]

contains-is_empty : (m : Text) → contains accepted m ≡ true → is_empty m ≡ false
unfolding contains is_empty
contains-is_empty [] h = cc
contains-is_empty (c ∷ m) h = refl

-- An output passes as soon as one of the accepted numbers stands anywhere in it.
pub mentions-contained :
    (m before after : Text) → contains accepted m ≡ true → mentions (before ++ (m ++ after)) ≡ true
unfolding mentions contains
mentions-contained m before after h =
    same-any (λ x. is_some (cut x (before ++ (m ++ after)))) m accepted h
      (is_some-cut m before after (contains-is_empty m h))

abbrev pub later_words : List Text → List Text
later_words [] = []
later_words (w ∷ ws) = ws

any-later_words :
    (p : Text → Bool) (ws : List Text) → any p (later_words ws) ≡ true → any p ws ≡ true
any-later_words p [] h = h
any-later_words p (w ∷ ws) h = ground (arith)

later_words-push_part :
    (p : Text → Bool) (c : ℕ) (ws : List Text)
    → any p (later_words ws) ≡ true
    → any p (later_words (push_part c ws)) ≡ true
later_words-push_part p c [] h = cc
later_words-push_part p c (w ∷ ws) h = h

later_words-split_by :
    (p : Text → Bool) (before rest : Text)
    → any p (split_by is_whitespace rest) ≡ true
    → any p (later_words (split_by is_whitespace (before ++ 32 ∷ rest))) ≡ true
unfolding split_by is_whitespace
later_words-split_by p [] rest h = h
later_words-split_by p (c ∷ before) rest h = elim (Bool-cases (is_whitespace c)) [
  | inl white ↦ rw white (
      any-later_words p (split_by is_whitespace (before ++ 32 ∷ rest))
        (later_words-split_by p before rest h))
  | inr black ↦ rw black (
      later_words-push_part p c (split_by is_whitespace (before ++ 32 ∷ rest))
        (later_words-split_by p before rest h))
]

-- A version in quotes, from its major number's two digits on.
abbrev pub quoted : ℕ → ℕ → Text → Text
quoted i j rest = b'"' ∷ (b'0' + i) ∷ (b'0' + j) ∷ b'.' ∷ rest

keep_char-kept : (p : ℕ → Bool) (c : ℕ) (s : Text) → p c ≡ false → keep_char p c s ≡ c ∷ s
keep_char-kept p c [] h = rw h refl
keep_char-kept p c (d ∷ s) h = refl

trim_matches-kept :
    (q c d : ℕ) (s : Text)
    → (c == q) ≡ false
    → (b'.' == q) ≡ false
    → trim_matches q (c ∷ d ∷ b'.' ∷ s) ≡ c ∷ d ∷ b'.' ∷ trim_end_by (λ x. x == q) s
unfolding trim_start_by trim_end_by
trim_matches-kept q c d s h k =
    rw (h, keep_char-kept (λ x. x == q) b'.' (trim_end_by (λ x. x == q) s) k) refl

digit_ne : (i q : ℕ) → q ≤ 47 → ((b'0' + i) == q) ≡ false
digit_ne i q h = ground arith

unquoted :
    (i j : ℕ) (rest : Text)
    → (s : Text) × (trim_matches b'\'' (trim_matches b'"' (quoted i j rest))
        ≡ (b'0' + i) ∷ (b'0' + j) ∷ b'.' ∷ s)
unfolding trim_start_by
unquoted i j rest = (
  _,
  ap (trim_matches b'\'')
        (trim_matches-kept b'"' (b'0' + i) (b'0' + j) rest (digit_ne i b'"' (omega arith)) refl)
      ∙ trim_matches-kept b'\'' (b'0' + i) (b'0' + j) (trim_end_by (λ x. x == b'"') rest)
          (digit_ne i b'\'' (omega arith)) refl,
)

dotted-digits :
    (i j : ℕ) (s : Text)
    → cut (b'.' ∷ []) ((b'0' + i) ∷ (b'0' + j) ∷ b'.' ∷ s) ≡ some ((b'0' + i) ∷ (b'0' + j) ∷ [], s)
unfolding cut strip_prefix
dotted-digits i j s = ground arith

is_accepted-digits :
    (i j : ℕ)
    → i ≤ 9
    → j ≤ 9
    → 17 ≤ 10 * i + j
    → is_accepted (parse_u32 ((b'0' + i) ∷ (b'0' + j) ∷ [])) ≡ true
unfolding parse_u32 parse_digits is_digit
is_accepted-digits i j h k l = ground arith

token_ok-quoted :
    (i j : ℕ) (rest : Text) → i ≤ 9 → j ≤ 9 → 17 ≤ 10 * i + j → token_ok (quoted i j rest) ≡ true
unfolding token_ok
token_ok-quoted i j rest h k l =
    let (s, e) = unquoted i j rest in rw (e, dotted-digits i j s, is_accepted-digits i j h k l) refl

abbrev pub is_good : Text → Bool
is_good token = not (is_empty token) && token_ok token

is_whitespace-digit : (i : ℕ) → i ≤ 9 → is_whitespace (b'0' + i) ≡ false
unfolding is_whitespace
is_whitespace-digit i h = ground arith

any-quoted :
    (i j : ℕ) (ws : List Text)
    → i ≤ 9
    → j ≤ 9
    → 17 ≤ 10 * i + j
    → any is_good (push_part b'"' (push_part (b'0' + i) (push_part (b'0' + j) (push_part b'.' ws))))
      ≡ true
unfolding is_empty
any-quoted i j [] h k l = rw (token_ok-quoted i j [] h k l) refl
any-quoted i j (w ∷ ws) h k l = rw (token_ok-quoted i j w h k l) refl

split_by-quoted :
    (i j : ℕ) (rest : Text)
    → i ≤ 9
    → j ≤ 9
    → 17 ≤ 10 * i + j
    → any is_good (split_by is_whitespace (quoted i j rest)) ≡ true
unfolding split_by is_whitespace
split_by-quoted i j rest h k l =
    rw (is_whitespace-digit i h, is_whitespace-digit j k)
      (any-quoted i j (split_by is_whitespace rest) h k l)

-- An output passes in which a version in quotes follows a blank, as Java prints it, and whose major number
-- has two digits and is 17 or more.
pub java_major_ok-quoted :
    (i j : ℕ) (before rest : Text)
    → i ≤ 9
    → j ≤ 9
    → 17 ≤ 10 * i + j
    → java_major_ok (before ++ 32 ∷ quoted i j rest) ≡ true
unfolding java_major_ok
java_major_ok-quoted i j before rest h k l =
    any-later_words is_good (split_by is_whitespace (before ++ 32 ∷ quoted i j rest))
      (later_words-split_by is_good before (quoted i j rest) (split_by-quoted i j rest h k l))

-- A text that begins with two digits.
abbrev pub two_digits : ℕ → ℕ → Text → Text
two_digits i j after = (b'0' + i) ∷ (b'0' + j) ∷ after

pub contains-accepted :
    (i j : ℕ)
    → j ≤ 9
    → 17 ≤ 10 * i + j
    → 10 * i + j ≤ 25
    → contains accepted (two_digits i j []) ≡ true
unfolding contains
contains-accepted zero j hj h k = absurd (omega arith)
contains-accepted (suc zero) j hj h k = ground arith
contains-accepted (suc (suc zero)) j hj h k = ground arith
contains-accepted (suc (suc (suc i))) j hj h k = absurd (omega arith)
