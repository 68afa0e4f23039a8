-- ===== src/Common/Names.antt =====
-- Lists of names as Python's sets and membership tests of strings.
use Prim.Native.Nat.{◌≤◌}
use Prim.Native.String.{String}
use mathlib.Core.Path.{◌≡◌, refl, sym, ap, ◌∙◌}
use mathlib.Core.Logic.{◌↔◌, inl, inr}
use mathlib.Core.Bool.{Bool, true, false, ◌||◌, ◌&&◌}
use mathlib.Core.List.{List, [], ◌∷◌, ◌++◌, map, Memᴰ}
use mathlib.Core.List.Memᴰ
use native.Mathlib.Omega.{arith}
use text.Mathlib.Text.{◌==◌ as str_eq}
use text.Mathlib.TextEquality.{eq_iff}
use text.Mathlib.TextPositions.{eq_refl}
use fastapi_langgraph_templa.Common.Tests.{Bool-cases}
use fastapi_langgraph_templa.Common.Lists.{filter, length}

-- `name in names`
unfoldable pub contains : List String → String → Bool
contains [] a = false
contains (x ∷ xs) a = str_eq x a || contains xs a

contains-Mem : (xs : List String) (a : String) → contains xs a ≡ true → Memᴰ a xs
unfolding contains
contains-Mem [] a h = absurd_test h
  where
    absurd_test : false ≡ true → Memᴰ a []
    absurd_test e = cc
contains-Mem (x ∷ xs) a h = elim (Bool-cases (str_eq x a)) [
  | inl e ↦ Memᴰ.head (sym ((eq_iff x a).0 e))
  | inr e ↦ Memᴰ.tail (contains-Mem xs a (rw e at h))
]

Mem-contains : (xs : List String) (a : String) → Memᴰ a xs → contains xs a ≡ true
unfolding contains
Mem-contains [] a m = absurd (Memᴰ.not-nil m)
Mem-contains (x ∷ xs) a m = elim (Memᴰ.cases_cons m) [
  | inl e ↦ rw (e) (ground (arith, eq_iff x x))
  | inr later ↦ ground (arith, Mem-contains xs a later)
]

pub contains_iff : (xs : List String) (a : String) → (contains xs a ≡ true) ↔ Memᴰ a xs
contains_iff xs a = (contains-Mem xs a, Mem-contains xs a)

pub not_contains : (xs : List String) (a : String) → contains xs a ≡ false → ¬ Memᴰ a xs
not_contains xs a h m = cc (Mem-contains xs a m, h)

pub contains-append :
    (xs ys : List String) (a : String) → contains (xs ++ ys) a ≡ (contains xs a || contains ys a)
unfolding contains
contains-append [] ys a = refl
contains-append (x ∷ xs) ys a = ground (arith, contains-append xs ys a)

pub contains-filter :
    (p : String → Bool) (xs : List String) (a : String)
    → contains (filter p xs) a ≡ (p a && contains xs a)
unfolding contains
contains-filter p [] a = ground arith
contains-filter p (x ∷ xs) a = elim (Bool-cases (str_eq x a)) [
  | inl e ↦ let same = ap p ((eq_iff x a).0 e) in ground (arith, contains-filter p xs a, same)
  | inr e ↦ ground (arith, contains-filter p xs a)
]

pub length-filter-le {ℓ} :
    {A : Type ℓ} (p : A → Bool) (xs : List A) → length (filter p xs) ≤ length xs
length-filter-le p [] = omega arith
length-filter-le p (x ∷ xs) = ground (arith, length-filter-le p xs)

-- a name among the images of the rows that satisfy a test
module _ {ℓ} {A : Type ℓ} (f : A → String) (p : A → Bool) (a : String) where
  abbrev pub Among : List A → Type ℓ
  Among xs = (x : A) × Memᴰ x xs × (p x ≡ true) × (f x ≡ a)

  pub contains-Among : (xs : List A) → contains (map f (filter p xs)) a ≡ true → Among xs
  unfolding contains
  contains-Among [] h = cc
  contains-Among (x ∷ xs) h = elim (Bool-cases (p x)) [
    | inr no_ ↦ let (y, m, q, e) = contains-Among xs (rw no_ at h) in (y, Memᴰ.tail m, q, e)
    | inl ok ↦ elim (Bool-cases (str_eq (f x) a)) [
      | inl e ↦ (x, Memᴰ.head refl, ok, (eq_iff (f x) a).0 e)
      | inr e ↦ let (y, m, q, g) = contains-Among xs (rw (ok, e) at h) in (y, Memᴰ.tail m, q, g)
    ]
  ]

  pub Among-contains : (xs : List A) → Among xs → contains (map f (filter p xs)) a ≡ true
  unfolding contains
  Among-contains [] (y, m, q, e) = absurd (Memᴰ.not-nil m)
  Among-contains (x ∷ xs) (y, m, q, e) = elim (Memᴰ.cases_cons m) [
    | inl same ↦
        let ok : p x ≡ true = ap p (sym same) ∙ q in
        let image : f x ≡ a = ap f (sym same) ∙ e in rw (ok, image, eq_refl a)
    | inr later ↦ ground (arith, Among-contains xs (y, later, q, e))
  ]
