-- ===== src/Prelude/Sorting.antt =====
-- Laws of `sort_with` and `take`.
use Prim.Native.Nat.{ℕ, zero, suc, ◌≤◌}
use mathlib.Core.Path.{◌≡◌, refl, ap}
use mathlib.Core.Bool.{Bool, true}
use mathlib.Core.List.{List, [], ◌∷◌}
use native.Mathlib.Omega.{arith}
use epistl.Prelude.Lists.{length, all, count, retain, insert_with, sort_with, take}

module _ {ℓ} {A : Type ℓ} where
  pub all-retain : (p : A → Bool) (xs : List A) → all p (retain p xs) ≡ true
  all-retain p [] = refl
  all-retain p (x ∷ xs) = ground (arith, all-retain p xs)

  pub all-take : (p : A → Bool) (n : ℕ) (xs : List A) → all p xs ≡ true → all p (take n xs) ≡ true
  all-take p zero xs h = refl
  all-take p (suc n) [] h = refl
  all-take p (suc n) (x ∷ xs) h = ground (arith, all-take p n xs)

  pub length-take-le : (n : ℕ) (xs : List A) → length (take n xs) ≤ n
  length-take-le zero xs = omega arith
  length-take-le (suc n) [] = omega arith
  length-take-le (suc n) (x ∷ xs) = omega (arith, length-take-le n xs)

  pub take_all : (n : ℕ) (xs : List A) → length xs ≤ n → take n xs ≡ xs
  take_all zero [] h = refl
  take_all zero (x ∷ xs) h = absurd (omega arith)
  take_all (suc n) [] h = refl
  take_all (suc n) (x ∷ xs) h = ap (λ r. x ∷ r) (take_all n xs (omega arith))

module _ {ℓ} {A : Type ℓ} (le : A → A → Bool) where
  all-insert_with :
      (p : A → Bool) (x : A) (xs : List A)
      → p x ≡ true
      → all p xs ≡ true
      → all p (insert_with le x xs) ≡ true
  all-insert_with p x [] hx h = ground arith
  all-insert_with p x (y ∷ ys) hx h = ground (arith, all-insert_with p x ys)

  pub all-sort_with :
      (p : A → Bool) (xs : List A) → all p xs ≡ true → all p (sort_with le xs) ≡ true
  all-sort_with p [] h = refl
  all-sort_with p (x ∷ xs) h =
      all-insert_with p x (sort_with le xs) (ground arith) (all-sort_with p xs (ground arith))

  count-insert_with :
      (p : A → Bool) (x : A) (xs : List A) → count p (insert_with le x xs) ≡ count p (x ∷ xs)
  count-insert_with p x [] = refl
  count-insert_with p x (y ∷ ys) = ground (arith, count-insert_with p x ys)

  -- Sorting keeps how many elements pass any test.
  pub count-sort_with : (p : A → Bool) (xs : List A) → count p (sort_with le xs) ≡ count p xs
  count-sort_with p [] = refl
  count-sort_with p (x ∷ xs) =
      ground (arith, count-insert_with p x (sort_with le xs), count-sort_with p xs)

  length-insert_with : (x : A) (xs : List A) → length (insert_with le x xs) ≡ suc (length xs)
  length-insert_with x [] = refl
  length-insert_with x (y ∷ ys) = ground (arith, length-insert_with x ys)

  pub length-sort_with : (xs : List A) → length (sort_with le xs) ≡ length xs
  length-sort_with [] = refl
  length-sort_with (x ∷ xs) =
      omega (arith, length-insert_with x (sort_with le xs), length-sort_with xs)
