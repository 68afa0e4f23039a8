-- ===== src/Tools/Permitted.antt =====
-- Which tools run.
use fastapi_langgraph_templa.Common.{
  String, ◌≡◌, refl, List, [], ◌∷◌, some, Bool, true, arith, any, Bool-cases, Option-cases, inl,
  inr, ◌⊎◌, ◌↔◌,
}
use mathlib.Core.List.{Memᴰ}
use mathlib.Core.List.Memᴰ
use fastapi_langgraph_templa.Common.Dict.{lookup}
use fastapi_langgraph_templa.Json.{Fields}
use fastapi_langgraph_templa.Tools.{
  ToolScope, ToolDef, ToolRegistry, ToolResult, result, is_allowed, allow_all, ainvoke, call_bound,
}

any-Mem :
    (p : String → Bool) (xs : List String)
    → any p xs ≡ true
    → (x : String) × Memᴰ x xs × (p x ≡ true)
any-Mem p [] h = cc
any-Mem p (x ∷ xs) h = elim (Bool-cases (p x)) [
  | inl e ↦ (x, Memᴰ.head refl, e)
  | inr e ↦ let (y, m, q) = any-Mem p xs (rw e at h) in (y, Memᴰ.tail m, q)
]

Mem-any :
    (p : String → Bool) (xs : List String) (x : String) → Memᴰ x xs → p x ≡ true → any p xs ≡ true
Mem-any p [] x m h = absurd (Memᴰ.not-nil m)
Mem-any p (y ∷ ys) x m h = elim (Memᴰ.cases_cons m) [
  | inl e ↦ let q : p y ≡ true = rw e at h in rw q
  | inr later ↦ ground (arith, Mem-any p ys x later h)
]

module _ (matches : String → String → Bool) where
  -- some pattern of the list matches the name
  abbrev pub Matched : String → List String → Type 0
  Matched name patterns = (p : String) × Memᴰ p patterns × (matches name p ≡ true)

  -- no pattern of `deny` matches, and one of `allow` does, if there are any
  abbrev pub Permitted : ToolScope → String → Type 0
  Permitted scope name =
      (¬ Matched name scope.deny) × ((scope.allow ≡ []) ⊎ Matched name scope.allow)

  allowed_cases :
      (name : String) (patterns : List String)
      → (allow_all patterns (any (matches name) patterns) ≡ true)
        ↔ ((patterns ≡ []) ⊎ Matched name patterns)
  allowed_cases name [] = (λ h. inl refl, λ h. refl)
  allowed_cases name (p ∷ ps) = (
    λ h. inr (any-Mem (matches name) (p ∷ ps) h),
    λ h. elim h [ inl e ↦ cc | inr (x, m, q) ↦ Mem-any (matches name) (p ∷ ps) x m q ],
  )

  is_allowed_iff :
      (scope : ToolScope) (name : String)
      → (is_allowed matches scope name ≡ true) ↔ Permitted scope name
  unfolding is_allowed
  is_allowed_iff scope name = (
    λ h. elim (Bool-cases (any (matches name) scope.deny)) [
      | inl bad ↦ cc (rw bad at h)
      | inr ok ↦ (
        λ (p, m, q). cc (Mem-any (matches name) scope.deny p m q, ok),
        (allowed_cases name scope.allow).0 (rw ok at h),
      )
    ],
    λ h. elim (Bool-cases (any (matches name) scope.deny)) [
      | inl bad ↦ absurd (h.0 (any-Mem (matches name) scope.deny bad))
      | inr ok ↦ rw ok ((allowed_cases name scope.allow).1 h.1)
    ],
  )

  -- An invocation gives a result, and not an exception, exactly if the tool is registered, no deny
  -- pattern matches its name, and the allow list is empty or has a pattern that does.
  pub ainvoke_iff :
      (r : ToolRegistry) (name : String) (arguments : Fields)
      → ((x : ToolResult) × (ainvoke matches r name arguments ≡ result x))
        ↔ (((t : ToolDef) × (lookup name r.tools ≡ some t)) × Permitted r.scope name)
  unfolding ainvoke
  ainvoke_iff r name arguments = (
    λ (x, h). elim (Option-cases (lookup name r.tools)) [
      | inl missing ↦ cc (rw missing at h)
      | inr (t, found) ↦ elim (Bool-cases (is_allowed matches r.scope name)) [
        | inl may ↦ ((t, found), (is_allowed_iff r.scope name).0 may)
        | inr may_not ↦ cc (rw (found, may_not) at h)
      ]
    ],
    λ ((t, found), permitted). (
      call_bound name arguments (lookup name r.callables),
      rw (found, (is_allowed_iff r.scope name).1 permitted) refl,
    ),
  )
