-- ===== src/Text/Laws.antt =====
-- Laws of the functions of `str`: what is stripped, cut and trimmed is put back by `++`.
use epistl.Prelude.{
  Option-cases, ◌<◌, length-append, inl, inr, ℕ, zero, suc, ap, take, not, ◌+◌, ◌≡◌, refl, Bool,
  true, false, ◌&&◌, Option, none, some, [], ◌∷◌, ◌++◌, arith, ==_refl, eq_of_==, ◌==◌, length, all,
  if◌then◌else◌, ltb,
}
use epistl.Text.{Text, same, strip_prefix, cut, cut_here, byte_len, len_utf8}

pub same_refl : (s : Text) → same s s ≡ true
unfolding same
same_refl [] = refl
same_refl (c ∷ s) = rw (==_refl c) (same_refl s)

pub and-true : (a b : Bool) → (a && b) ≡ true → (a ≡ true) × (b ≡ true)
and-true true b h = (refl, h)
and-true false b h = cc

pub eq_of_same : (s t : Text) → same s t ≡ true → s ≡ t
unfolding same
eq_of_same [] [] h = refl
eq_of_same [] (d ∷ t) h = cc
eq_of_same (c ∷ s) [] h = cc
eq_of_same (c ∷ s) (d ∷ t) h =
    let (here, rest) = and-true (c == d) (same s t) h in cc (eq_of_== c d here, eq_of_same s t rest)

pub strip_prefix-append : (p s : Text) → strip_prefix p (p ++ s) ≡ some s
unfolding strip_prefix
strip_prefix-append [] s = refl
strip_prefix-append (c ∷ p) s = rw (==_refl c) (strip_prefix-append p s)

chosen :
    {A : Type 0} (b : Bool) (o : Option A) {t : A}
    → (if b then o else none) ≡ some t
    → (b ≡ true) × (o ≡ some t)
chosen true o h = (refl, h)
chosen false o h = cc

pub append-strip_prefix : (p s t : Text) → strip_prefix p s ≡ some t → s ≡ p ++ t
unfolding strip_prefix
append-strip_prefix [] s t h = cc h
append-strip_prefix (c ∷ p) [] t h = cc
append-strip_prefix (c ∷ p) (d ∷ s) t h =
    let (here, rest) = chosen (c == d) (strip_prefix p s) h in
    cc (eq_of_== c d here, append-strip_prefix p s t rest)

-- What stands before and after the marker, with the marker between them, is the whole.
pub append-cut : (m s b r : Text) → cut m s ≡ some (b, r) → s ≡ b ++ (m ++ r)
unfolding cut
append-cut [] [] b r h = cc h
append-cut (x ∷ m) [] b r h = cc
append-cut m (c ∷ s) b r h =
    at (strip_prefix m (c ∷ s)) (cut m s) refl (λ b' r'. append-cut m s b' r') h
  where
    at :
        (o : Option Text) (l : Option (Text × Text))
        → strip_prefix m (c ∷ s) ≡ o
        → ((b' r' : Text) → l ≡ some (b', r') → s ≡ b' ++ (m ++ r'))
        → cut_here o c l ≡ some (b, r)
        → c ∷ s ≡ b ++ (m ++ r)
    at (some t) l e later g = cc (g, append-strip_prefix m (c ∷ s) t e)
    at none none e later g = cc
    at none (some (b', r')) e later g = cc (g, later b' r' refl)

pub byte_len-append : (s t : Text) → byte_len (s ++ t) ≡ byte_len s + byte_len t
unfolding byte_len
byte_len-append [] t = omega arith
byte_len-append (c ∷ s) t = omega (arith, byte_len-append s t)

-- An ASCII text takes one byte for each code point.
pub byte_len_ascii : (s : Text) → all (λ c. ltb c 0x80) s ≡ true → byte_len s ≡ length s
unfolding byte_len len_utf8
byte_len_ascii [] h = refl
byte_len_ascii (c ∷ s) h = ground (arith, byte_len_ascii s)

pub take-length-append : (n : ℕ) (s t : Text) → length s ≡ n → take n (s ++ t) ≡ s
take-length-append zero [] t h = refl
take-length-append zero (c ∷ s) t h = absurd (omega arith)
take-length-append (suc n) [] t h = absurd (omega arith)
take-length-append (suc n) (c ∷ s) t h = ap (λ r. c ∷ r) (take-length-append n s t (omega arith))

-- A text that lacks a character is not cut at it; one that is cut at it has none before the place.
abbrev pub Lacks : ℕ → Text → Type 0
Lacks c s = all (λ d. not (d == c)) s ≡ true

pub cut-append : (c : ℕ) (s t : Text) → Lacks c s → cut (c ∷ []) (s ++ c ∷ t) ≡ some (s, t)
unfolding cut strip_prefix
cut-append c [] t h = rw (==_refl c) refl
cut-append c (d ∷ s) t h = ground (arith, cut-append c s t)

pub cut-none : (c : ℕ) (s : Text) → Lacks c s → cut (c ∷ []) s ≡ none
unfolding cut strip_prefix
cut-none c [] h = refl
cut-none c (d ∷ s) h = ground (arith, cut-none c s)

pub cut-Lacks : (c : ℕ) (s b r : Text) → cut (c ∷ []) s ≡ some (b, r) → Lacks c b
unfolding cut strip_prefix
cut-Lacks c [] b r h = cc
cut-Lacks c (d ∷ s) b r h = elim (Option-cases (cut (c ∷ []) s)) [
  | inl none_there ↦ ground arith
  | inr ((b', r'), there) ↦ ground (arith, cut-Lacks c s b' r' there)
]

pub Lacks-cut : (c : ℕ) (s : Text) → cut (c ∷ []) s ≡ none → Lacks c s
unfolding cut strip_prefix
Lacks-cut c [] h = refl
Lacks-cut c (d ∷ s) h = ground (arith, Lacks-cut c s)

pub Lacks-append : (c : ℕ) (s t : Text) → Lacks c s → Lacks c t → Lacks c (s ++ t)
Lacks-append c [] t h k = k
Lacks-append c (d ∷ s) t h k = ground (arith, Lacks-append c s t)

-- A longer text is no prefix.
pub strip_prefix_short : (p s : Text) → length s < length p → strip_prefix p s ≡ none
strip_prefix_short p s h = elim (Option-cases (strip_prefix p s)) [
  | inl absent ↦ absent
  | inr (t, there) ↦
      absurd (omega (arith, length-append p t, ap length (append-strip_prefix p s t there)))
]
