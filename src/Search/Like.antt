-- ===== src/Search/Like.antt =====
-- The match of `ILIKE` against the pattern `$1 || '%'` of apps/api/src/search.rs, on code points:
-- `%` stands for any text, `_` for any character, and a backslash takes the next one literally.
use epistl.Prelude.{
  ℕ, ◌≡◌, refl, ap, ◌==◌, Bool, true, false, ◌&&◌, ◌||◌, not, List, [], ◌∷◌, ◌++◌, all, arith,
  if◌then◌else◌,
}

pub data Token : Type 0 where
  literal : ℕ → Token
  one many : Token

abbrev percent : ℕ
percent = 37

abbrev underscore : ℕ
underscore = 95

abbrev backslash : ℕ
backslash = 92

token : ℕ → Token
token c = if c == percent then many else if c == underscore then one else literal c

-- The pattern, read from the left; the flag says that a backslash came just before.
unfoldable pub tokens : Bool → List ℕ → List Token
unfolding token
tokens escaped [] = []
tokens true (c ∷ cs) = literal c ∷ tokens false cs
tokens false (c ∷ cs) = if c == backslash then tokens true cs else token c ∷ tokens false cs

any_suffix : (List ℕ → Bool) → List ℕ → Bool
any_suffix f [] = f []
any_suffix f (x ∷ xs) = f (x ∷ xs) || any_suffix f xs

module _ (fold : ℕ → ℕ) where
  unfoldable pub like : List Token → List ℕ → Bool
  unfolding any_suffix
  like [] [] = true
  like [] (x ∷ xs) = false
  like (literal c ∷ ps) [] = false
  like (literal c ∷ ps) (x ∷ xs) = fold x == fold c && like ps xs
  like (one ∷ ps) [] = false
  like (one ∷ ps) (x ∷ xs) = like ps xs
  like (many ∷ ps) xs = any_suffix (like ps) xs

  -- `text ILIKE query || '%'`
  unfoldable pub ilike_prefix : List ℕ → List ℕ → Bool
  ilike_prefix query text = like (tokens false (query ++ percent ∷ [])) text

  -- The plain reading: the text begins with the query, up to case.
  pub has_prefix : List ℕ → List ℕ → Bool
  has_prefix [] text = true
  has_prefix (c ∷ cs) [] = false
  has_prefix (c ∷ cs) (x ∷ xs) = fold x == fold c && has_prefix cs xs

  like-many : (text : List ℕ) → like (many ∷ []) text ≡ true
  unfolding like
  like-many [] = refl
  like-many (x ∷ xs) = ground (arith, like-many xs)

abbrev pub is_plain : ℕ → Bool
is_plain c = not (c == percent) && (not (c == underscore) && not (c == backslash))

tokens-plain :
    (c : ℕ) (cs : List ℕ) → is_plain c ≡ true → tokens false (c ∷ cs) ≡ literal c ∷ tokens false cs
unfolding tokens
tokens-plain c cs h = ground arith

tokens-percent :
    (c : ℕ) (cs : List ℕ) → (c == percent) ≡ true → tokens false (c ∷ cs) ≡ many ∷ tokens false cs
unfolding tokens
tokens-percent c cs h = ground arith

any_suffix_here : (f : List ℕ → Bool) (xs : List ℕ) → f xs ≡ true → any_suffix f xs ≡ true
unfolding any_suffix
any_suffix_here f [] h = h
any_suffix_here f (x ∷ xs) h = ground arith

ilike_prefix-nil : (fold : ℕ → ℕ) (text : List ℕ) → ilike_prefix fold [] text ≡ true
unfolding ilike_prefix tokens
ilike_prefix-nil fold text = like-many fold text

-- Of a query with no wildcard and no backslash the search is a prefix match, up to case.
pub ilike_prefix-has_prefix :
    (fold : ℕ → ℕ) (query text : List ℕ)
    → all is_plain query ≡ true
    → ilike_prefix fold query text ≡ has_prefix fold query text
unfolding ilike_prefix has_prefix like
ilike_prefix-has_prefix fold [] text h = ilike_prefix-nil fold text
ilike_prefix-has_prefix fold (c ∷ cs) [] h =
    rw (tokens-plain c (cs ++ percent ∷ []) (ground arith)) refl
ilike_prefix-has_prefix fold (c ∷ cs) (x ∷ xs) h =
    rw (tokens-plain c (cs ++ percent ∷ []) (ground arith))
      (ap (λ b. fold x == fold c && b) (ilike_prefix-has_prefix fold cs xs (ground arith)))

-- A query of `%` signs alone finds every text.
pub ilike_prefix-percent :
    (fold : ℕ → ℕ) (query text : List ℕ)
    → all (λ c. c == percent) query ≡ true
    → ilike_prefix fold query text ≡ true
unfolding ilike_prefix like
ilike_prefix-percent fold [] text h = ilike_prefix-nil fold text
ilike_prefix-percent fold (c ∷ cs) text h =
    rw (tokens-percent c (cs ++ percent ∷ []) (ground arith)) (
      any_suffix_here (like fold (tokens false (cs ++ percent ∷ []))) text
        (ilike_prefix-percent fold cs text (ground arith)))
