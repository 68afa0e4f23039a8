-- ===== src/Common/Slices.antt =====
-- Python's slices.
use Prim.Native.Nat.{ℕ, zero, suc, ◌+◌, ◌-◌, ◌≤◌}
use mathlib.Core.Path.{◌≡◌, refl, ap}
use mathlib.Core.List.{List, [], ◌∷◌, ◌++◌}
use native.Mathlib.Omega.{arith}
use native.Mathlib.Nat.{suc-add}
use fastapi_langgraph_templa.Common.Lists.{length, take, drop}

module _ {ℓ} {A : Type ℓ} where
  -- `xs[start:end]` for numbers that are not negative
  abbrev pub slice : ℕ → ℕ → List A → List A
  slice start end_ xs = take (end_ - start) (drop start xs)

  pub take-drop_append : (k : ℕ) (xs : List A) → take k xs ++ drop k xs ≡ xs
  take-drop_append zero xs = refl
  take-drop_append (suc k) [] = refl
  take-drop_append (suc k) (x ∷ xs) = ap (λ t. x ∷ t) (take-drop_append k xs)

  pub drop-drop : (s k : ℕ) (xs : List A) → drop k (drop s xs) ≡ drop (s + k) xs
  drop-drop zero k xs = ap (λ n. drop n xs) (omega arith)
  drop-drop (suc s) zero [] = rw suc-add refl
  drop-drop (suc s) (suc k) [] = rw suc-add refl
  drop-drop (suc s) k (x ∷ xs) = rw suc-add (drop-drop s k xs)

  pub length-drop : (s : ℕ) (xs : List A) → length (drop s xs) ≡ length xs - s
  length-drop zero xs = omega arith
  length-drop (suc s) [] = omega arith
  length-drop (suc s) (x ∷ xs) = omega (arith, length-drop s xs)

  pub length-take : (n : ℕ) (xs : List A) → n ≤ length xs → length (take n xs) ≡ n
  length-take zero xs h = refl
  length-take (suc n) [] h = absurd (omega arith)
  length-take (suc n) (x ∷ xs) h = ap suc (length-take n xs (omega arith))

  pub length-take_le : (n : ℕ) (xs : List A) → length (take n xs) ≤ n
  length-take_le zero xs = omega arith
  length-take_le (suc n) [] = omega arith
  length-take_le (suc n) (x ∷ xs) = omega (arith, length-take_le n xs)

  pub take-take : (j n : ℕ) (xs : List A) → j ≤ n → take j (take n xs) ≡ take j xs
  take-take zero n xs h = refl
  take-take (suc j) zero xs h = absurd (omega arith)
  take-take (suc j) (suc n) [] h = refl
  take-take (suc j) (suc n) (x ∷ xs) h = ap (λ t. x ∷ t) (take-take j n xs (omega arith))

  pub take_all : (n : ℕ) (xs : List A) → length xs ≤ n → take n xs ≡ xs
  take_all zero [] h = refl
  take_all zero (x ∷ xs) h = absurd (omega arith)
  take_all (suc n) [] h = refl
  take_all (suc n) (x ∷ xs) h = ap (λ t. x ∷ t) (take_all n xs (omega arith))
