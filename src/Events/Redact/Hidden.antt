-- ===== src/Events/Redact/Hidden.antt =====
-- What `_redact` hides.
use fastapi_langgraph_templa.Common.{◌≡◌, refl, ap, true, Bool-cases, inl, inr}
use fastapi_langgraph_templa.Json.{
  Json, Items, Fields, null, bool, num, text, arr, obj, nil, cons, end, field,
}
use fastapi_langgraph_templa.Events.Redact.{is_sensitive, redact, redact_items, redact_fields}

-- at every depth, a sensitive key has the mask as its value
mutual
  pub IsHidden : Json → Type 0
  IsHidden (arr xs) = AllHidden xs
  IsHidden (obj fs) = FieldsHidden fs
  IsHidden _ = Unit

  pub AllHidden : Items → Type 0
  AllHidden nil = Unit
  AllHidden (cons x xs) = IsHidden x × AllHidden xs

  pub FieldsHidden : Fields → Type 0
  FieldsHidden end = Unit
  FieldsHidden (field key v fs) =
      ((is_sensitive key ≡ true → v ≡ text "***") × IsHidden v) × FieldsHidden fs

mutual
  unfolding IsHidden AllHidden FieldsHidden redact redact_items redact_fields

  hidden : (j : Json) → IsHidden (redact j)
  hidden null = tt
  hidden (bool b) = tt
  hidden (num n) = tt
  hidden (text s) = tt
  hidden (arr xs) = hidden_items xs
  hidden (obj fs) = hidden_fields fs

  hidden_items : (xs : Items) → AllHidden (redact_items xs)
  hidden_items nil = tt
  hidden_items (cons x xs) = (hidden x, hidden_items xs)

  hidden_fields : (fs : Fields) → FieldsHidden (redact_fields fs)
  hidden_fields end = tt
  hidden_fields (field key v fs) = elim (Bool-cases (is_sensitive key)) [
    | inl masked ↦ rw masked ((λ _. refl, tt), hidden_fields fs)
    | inr no_ ↦ rw no_ ((λ e. cc e, hidden v), hidden_fields fs)
  ]

mutual
  unfolding IsHidden AllHidden FieldsHidden redact redact_items redact_fields

  kept : (j : Json) → IsHidden j → redact j ≡ j
  kept null h = refl
  kept (bool b) h = refl
  kept (num n) h = refl
  kept (text s) h = refl
  kept (arr xs) h = ap arr (kept_items xs h)
  kept (obj fs) h = ap obj (kept_fields fs h)

  kept_items : (xs : Items) → AllHidden xs → redact_items xs ≡ xs
  kept_items nil h = refl
  kept_items (cons x xs) h = rw (kept x h.0, kept_items xs h.1) refl

  kept_fields : (fs : Fields) → FieldsHidden fs → redact_fields fs ≡ fs
  kept_fields end h = refl
  kept_fields (field key v fs) h = elim (Bool-cases (is_sensitive key)) [
    | inl masked ↦ rw (masked, kept_fields fs h.1, h.0.0 masked) refl
    | inr no_ ↦ rw (no_, kept_fields fs h.1, kept v h.0.1) refl
  ]

-- In a redacted payload every sensitive key has the mask as its value, at every depth, and redacting
-- it again changes nothing.
pub redact_lem : (j : Json) → IsHidden (redact j) × (redact (redact j) ≡ redact j)
redact_lem j = (hidden j, kept (redact j) (hidden j))
