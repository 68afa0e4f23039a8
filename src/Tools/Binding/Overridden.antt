-- ===== src/Tools/Binding/Overridden.antt =====
-- An argument `_name` in the call of a tool of an adapter.
use fastapi_langgraph_templa.Common.{
  String, ◌≡◌, refl, ◌∙◌, ap, List, [], ◌∷◌, none, some, Bool, true,
}
use fastapi_langgraph_templa.Common.Dict.{lookup}
use fastapi_langgraph_templa.Json.{Json, Fields, text}
use fastapi_langgraph_templa.Graph.Validator.{get_field}
use fastapi_langgraph_templa.Tools.{
  ToolDef, ToolRegistry, Called, is_allowed, ainvoke, result, normalize,
}
use fastapi_langgraph_templa.Tools.Binding.{bound_call, bind_tools, without}
use fastapi_langgraph_templa.Tools.Binding.Found.{IsByName, bind_tools-lookup}

-- a call of a tool that is found, with its function, in the scope
ainvoke_found :
    (matches : String → String → Bool) (r : ToolRegistry) (k : String) (t : ToolDef)
    (f : Fields → Called) (arguments : Fields)
    → lookup k r.tools ≡ some t
    → lookup k r.callables ≡ some f
    → is_allowed matches r.scope k ≡ true
    → ainvoke matches r k arguments ≡ result (normalize (f arguments))
unfolding ainvoke
ainvoke_found matches r k t f arguments h g allowed = rw (h, g, allowed) refl

bind_tools-scope :
    (call : Json → Fields → Called) (tools : List (String × ToolDef)) (r : ToolRegistry)
    → (bind_tools call tools r).scope ≡ r.scope
unfolding bind_tools
bind_tools-scope call [] r = refl
bind_tools-scope call (x ∷ tools) r = bind_tools-scope call tools _

bound_call_own :
    (call : Json → Fields → Called) (k : String) (arguments : Fields)
    → get_field "_name" arguments ≡ none
    → bound_call call k arguments ≡ call (text k) arguments
unfolding bound_call
bound_call_own call k arguments h = rw (bound_call, h) refl

bound_call_other :
    (call : Json → Fields → Called) (k : String) (arguments : Fields) (name : Json)
    → get_field "_name" arguments ≡ some name
    → bound_call call k arguments ≡ call name (without "_name" arguments)
unfolding bound_call
bound_call_other call k arguments name h = rw (bound_call, h) refl

-- A call of an adapter's tool that the scope allows has the result of the adapter's invocation of
-- that tool, if no argument is called `_name`. If one is, it is the result of the adapter's
-- invocation of the tool that the argument names, whatever the scope says of that tool.
pub ainvoke-bind_tools :
    (matches : String → String → Bool) (call : Json → Fields → Called)
    (tools : List (String × ToolDef)) (r : ToolRegistry) (k : String) (t : ToolDef)
    (arguments : Fields)
    → IsByName tools
    → lookup k tools ≡ some t
    → is_allowed matches r.scope k ≡ true
    → (get_field "_name" arguments ≡ none
        → ainvoke matches (bind_tools call tools r) k arguments
          ≡ result (normalize (call (text k) arguments)))
      × ((name : Json)
          → get_field "_name" arguments ≡ some name
          → ainvoke matches (bind_tools call tools r) k arguments
            ≡ result (normalize (call name (without "_name" arguments))))
ainvoke-bind_tools matches call tools r k t arguments by_name h allowed =
    let bound = bind_tools-lookup call k tools r by_name in
    let allowed_ : is_allowed matches (bind_tools call tools r).scope k ≡ true =
      ap (λ s. is_allowed matches s k) (bind_tools-scope call tools r) ∙ allowed in
    let run =
      ainvoke_found matches (bind_tools call tools r) k t (bound_call call k) arguments
        (bound.0 ∙ rw h refl) (bound.1 ∙ rw h refl) allowed_ in
    (
      λ own. run ∙ ap (λ c. result (normalize c)) (bound_call_own call k arguments own),
      λ name other.
          run ∙ ap (λ c. result (normalize c)) (bound_call_other call k arguments name other),
    )
