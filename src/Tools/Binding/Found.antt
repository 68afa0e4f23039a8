-- ===== src/Tools/Binding/Found.antt =====
-- What a registry finds after an adapter was bound to it.
use mathlib.Core.Option
use fastapi_langgraph_templa.Common.{
  String, str_eq, eq_iff, ◌≡◌, refl, ap, sym, ◌∙◌, subst, List, [], ◌∷◌, none, some, true, false,
  inl, inr, Bool-cases,
}
use fastapi_langgraph_templa.Common.Table.{or_else}
use fastapi_langgraph_templa.Common.Dict.{lookup, put, lookup-put, lookup-put_other}
use fastapi_langgraph_templa.Json.{Json, Fields}
use fastapi_langgraph_templa.Tools.{ToolDef, ToolRegistry, Called, register, register_callable}
use fastapi_langgraph_templa.Tools.Binding.{bound_call, bind_tools}

-- a dict of tools under their names: no key comes twice
abbrev pub IsByName : List (String × ToolDef) → Type 0
IsByName [] = Unit
IsByName ((k, t) ∷ d) = (t.name ≡ k) × (lookup k d ≡ none) × IsByName d

-- what is not found in a dict is not found after another key was put
lookup-put_absent :
    (k j : String) (t : ToolDef) (d : List (String × ToolDef))
    → lookup k d ≡ none
    → str_eq j k ≡ false
    → lookup k (put j t d) ≡ none
lookup-put_absent k j t d h e = lookup-put_other j k t d e ∙ h

pub put-IsByName :
    (k : String) (t : ToolDef) (d : List (String × ToolDef))
    → t.name ≡ k
    → IsByName d
    → IsByName (put k t d)
unfolding put lookup
put-IsByName k t [] named h = (named, refl, tt)
put-IsByName k t ((j, u) ∷ d) named (name, fresh, rest) = elim (Bool-cases (str_eq j k)) [
  | inl e ↦ let same : j ≡ k = (eq_iff j k).0 e in rw e (named ∙ sym same, fresh, rest)
  | inr e ↦ elim (Bool-cases (str_eq k j)) [
    | inl f ↦ let same : str_eq j k ≡ true = (eq_iff j k).1 (sym ((eq_iff k j).0 f)) in cc
    | inr f ↦ rw e (name, lookup-put_absent j k t d fresh f, put-IsByName k t d named rest)
  ]
]

-- one tool of the adapter registered, and found under its name, if it is the one looked up
register-lookup :
    (call : Json → Fields → Called) (k j : String) (t : ToolDef) (r : ToolRegistry)
    → t.name ≡ j
    → (str_eq j k ≡ false)
    → let after : ToolRegistry = register_callable t.name (bound_call call t.name) (register t r) in
      (lookup k after.tools ≡ lookup k r.tools) × (lookup k after.callables ≡ lookup k r.callables)
unfolding register register_callable
register-lookup call k j t r named e =
    let other : str_eq t.name k ≡ false = ap (λ x. str_eq x k) named ∙ e in
    (
      lookup-put_other t.name k t r.tools other,
      lookup-put_other t.name k (bound_call call t.name) r.callables other,
    )

-- what the registry finds under `k` after it was bound to the tools
abbrev pub IsBound :
    (Json → Fields → Called)
    → String
    → List (String × ToolDef)
    → ToolRegistry
    → ToolRegistry
    → Type 0
IsBound call k tools r after =
    (lookup k after.tools ≡ or_else (lookup k tools) (lookup k r.tools))
    × (lookup k after.callables
        ≡ or_else (Option.map (λ (t : ToolDef). bound_call call k) (lookup k tools))
            (lookup k r.callables))

-- After `bind` the registry has every tool of the adapter under its name, with a function that
-- calls the adapter, and all other tools and functions as before.
pub bind_tools-lookup :
    (call : Json → Fields → Called) (k : String) (tools : List (String × ToolDef))
    (r : ToolRegistry)
    → IsByName tools
    → IsBound call k tools r (bind_tools call tools r)
unfolding bind_tools lookup register register_callable
bind_tools-lookup call k [] r h = (refl, refl)
bind_tools-lookup call k ((j, t) ∷ tools) r (named, fresh, rest) =
    let r' = register_callable t.name (bound_call call t.name) (register t r) in
    let later = bind_tools-lookup call k tools r' rest in
    elim (Bool-cases (str_eq j k)) [
      | inl e ↦
          let same : j ≡ k = (eq_iff j k).0 e in
          let absent : lookup k tools ≡ none = subst (λ x. lookup x tools ≡ none) same fresh in
          let tool_ : lookup k (put t.name t r.tools) ≡ some t =
            subst (λ x. lookup x (put t.name t r.tools) ≡ some t) (named ∙ same)
              (lookup-put t.name t r.tools) in
          let call_ : lookup k (put t.name (bound_call call t.name) r.callables)
              ≡ some (bound_call call k) =
            subst
              (λ x.
                lookup x (put t.name (bound_call call t.name) r.callables)
                ≡ some (bound_call call x))
              (named ∙ same) (lookup-put t.name (bound_call call t.name) r.callables) in
          (later.0 ∙ rw (absent, e) tool_, later.1 ∙ rw (absent, e) call_)
      | inr e ↦
          let same = register-lookup call k j t r named e in
          (
            later.0 ∙ rw e (ap (or_else (lookup k tools)) same.0),
            later.1
                ∙ rw e (
                    ap (or_else (Option.map (λ (x : ToolDef). bound_call call k) (lookup k tools)))
                      same.1),
          )
    ]
