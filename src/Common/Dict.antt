-- ===== src/Common/Dict.antt =====
-- A dict as the list of its items in the order of insertion.
use Prim.Native.String.{String}
use mathlib.Core.Path.{◌≡◌, refl, ap, ◌∙◌}
use mathlib.Core.Bool.{false}
use mathlib.Core.Logic.{inl, inr}
use mathlib.Core.Option
use mathlib.Core.Option.{Option, none, some}
use mathlib.Core.List.{List, [], ◌∷◌, ◌++◌}
use text.Mathlib.Text.{◌==◌ as str_eq}
use text.Mathlib.TextEquality.{eq_iff}
use text.Mathlib.TextPositions.{eq_refl}
use fastapi_langgraph_templa.Common.Tests.{if◌then◌else◌, Bool-cases}

module _ {ℓ} {V : Type ℓ} where
  -- `d.get(key)`
  unfoldable pub lookup : String → List (String × V) → Option V
  lookup key [] = none
  lookup key ((k, v) ∷ d) = if str_eq k key then some v else lookup key d

  -- `d[key] = value`
  unfoldable pub put : String → V → List (String × V) → List (String × V)
  put key value [] = (key, value) ∷ []
  put key value ((k, v) ∷ d) =
      let rest = put key value d in if str_eq k key then (k, value) ∷ d else (k, v) ∷ rest

  pub lookup-put :
      (key : String) (value : V) (d : List (String × V)) → lookup key (put key value d) ≡ some value
  unfolding lookup put
  lookup-put key value [] = rw (eq_refl key)
  lookup-put key value ((k, v) ∷ d) = elim (Bool-cases (str_eq k key)) [
    | inl e ↦ rw (e, e) refl
    | inr e ↦ rw (e, e) (lookup-put key value d)
  ]

  pub lookup-put_other :
      (key other : String) (value : V) (d : List (String × V))
      → str_eq key other ≡ false
      → lookup other (put key value d) ≡ lookup other d
  unfolding lookup put
  lookup-put_other key other value [] h = rw h
  lookup-put_other key other value ((k, v) ∷ d) h = elim (Bool-cases (str_eq k key)) [
    | inl e ↦
        let differ : str_eq k other ≡ false = ap (λ t. str_eq t other) ((eq_iff k key).0 e) ∙ h in
        rw (e, differ) refl
    | inr e ↦ elim (Bool-cases (str_eq k other)) [
      | inl f ↦ rw (e, f) refl
      | inr f ↦ rw (e, f) (lookup-put_other key other value d h)
    ]
  ]

module _ {ℓ} {V : Type ℓ} where
  -- `d.setdefault(key, []).append(value)`
  unfoldable pub append_to : String → V → List (String × List V) → List (String × List V)
  append_to key value [] = (key, value ∷ []) ∷ []
  append_to key value ((k, vs) ∷ d) =
      let rest = append_to key value d in
      if str_eq k key then (k, vs ++ value ∷ []) ∷ d else (k, vs) ∷ rest

  pub lookup-append_to :
      (key : String) (value : V) (vs : List V) (d : List (String × List V))
      → lookup key d ≡ some vs
      → lookup key (append_to key value d) ≡ some (vs ++ value ∷ [])
  unfolding lookup append_to
  lookup-append_to key value vs [] h = cc
  lookup-append_to key value vs ((k, ws) ∷ d) h = elim (Bool-cases (str_eq k key)) [
    | inl e ↦
        let same : some ws ≡ some vs = rw e at h in
        rw (e, e) (ap (λ o. Option.map (λ us. us ++ value ∷ []) o) same)
    | inr e ↦ rw (e, e) (lookup-append_to key value vs d (rw e at h))
  ]

  pub lookup-append_to_other :
      (key other : String) (value : V) (d : List (String × List V))
      → str_eq key other ≡ false
      → lookup other (append_to key value d) ≡ lookup other d
  unfolding lookup append_to
  lookup-append_to_other key other value [] h = rw h
  lookup-append_to_other key other value ((k, vs) ∷ d) h = elim (Bool-cases (str_eq k key)) [
    | inl e ↦
        let differ : str_eq k other ≡ false = ap (λ t. str_eq t other) ((eq_iff k key).0 e) ∙ h in
        rw (e, differ) refl
    | inr e ↦ elim (Bool-cases (str_eq k other)) [
      | inl f ↦ rw (e, f) refl
      | inr f ↦ rw (e, f) (lookup-append_to_other key other value d h)
    ]
  ]
