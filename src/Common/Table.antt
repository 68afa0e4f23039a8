-- ===== src/Common/Table.antt =====
-- A database table as the list of its rows: SELECT and UPDATE with a WHERE clause, and INSERT at
-- the end. Rows come in table order; no query of the program relies on another.
use fastapi_langgraph_templa.Common.Tests.{if◌then◌else◌}
use mathlib.Core.Path.{◌≡◌, refl}
use mathlib.Core.Bool.{Bool, true}
use mathlib.Core.Option
use mathlib.Core.Option.{Option, none, some}
use mathlib.Core.List.{List, [], ◌∷◌, ◌++◌}
use native.Mathlib.Omega.{arith}

module _ {ℓ} {A : Type ℓ} where
  -- the first row that satisfies the condition
  abbrev pub find : (A → Bool) → List A → Option A
  find p [] = none
  find p (x ∷ xs) = if p x then some x else find p xs

  -- UPDATE ... SET u WHERE q
  abbrev pub update_where : (A → Bool) → (A → A) → List A → List A
  update_where q u [] = []
  update_where q u (x ∷ xs) = (if q x then u x else x) ∷ update_where q u xs

  abbrev pub or_else : Option A → Option A → Option A
  or_else none o = o
  or_else (some a) o = some a

  -- what an update does to one row
  abbrev pub touched : (A → Bool) → (A → A) → A → A
  touched q u a = if q a then u a else a

  -- A lookup after an update that keeps the looked-up condition is the update of the lookup.
  pub find-update_where :
      (p q : A → Bool) (u : A → A) (l : List A)
      → ((a : A) → p (u a) ≡ p a)
      → find p (update_where q u l) ≡ Option.map (touched q u) (find p l)
  find-update_where p q u [] keep = refl
  find-update_where p q u (x ∷ xs) keep = ground (arith, keep x, find-update_where p q u xs keep)

  pub find-append :
      (p : A → Bool) (xs ys : List A) → find p (xs ++ ys) ≡ or_else (find p xs) (find p ys)
  find-append p [] ys = refl
  find-append p (x ∷ xs) ys = ground (arith, find-append p xs ys)

  pub find_sound : (p : A → Bool) (l : List A) (a : A) → find p l ≡ some a → p a ≡ true
  find_sound p [] a h = cc
  find_sound p (x ∷ xs) a h = ground (arith, find_sound p xs a)
