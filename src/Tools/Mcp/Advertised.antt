-- ===== src/Tools/Mcp/Advertised.antt =====
-- Which tools an MCP adapter holds after `discover` of app/tools/mcp_adapter.py.
use mathlib.Core.List.{Memᴰ}
use fastapi_langgraph_templa.Common.{
  ℕ, zero, suc, String, str_eq, eq_iff, ◌≡◌, refl, sym, ◌∙◌, subst, List, [], ◌∷◌, Option, none,
  some, true, inl, inr, Bool-cases, arith,
}
use fastapi_langgraph_templa.Common.Dict.{lookup, put, lookup-put, lookup-put_other}
use fastapi_langgraph_templa.Tools.{ToolDef, sensitive}
use fastapi_langgraph_templa.Tools.Binding.Found.{IsByName, put-IsByName}
use fastapi_langgraph_templa.Tools.Mcp.{
  McpTool, Page, Listed, page, list_exception, destructive, tool_def_of, Found, add_tool, add_tools,
  Discovery, found, next_page, after_page, discover_from, discover,
}

-- the server lists the tool on one of its pages
abbrev pub Advertised : (Option String → Listed) → ToolDef → Type 0
Advertised list_tools t =
    (cursor : Option String) × (p : Page) × (list_tools cursor ≡ page p)
    × (x : McpTool) × Memᴰ x p.tools
    × (tool_def_of x ≡ t)

-- a dict of such tools
abbrev pub AllAdvertised : (Option String → Listed) → List (String × ToolDef) → Type 0
AllAdvertised list_tools d =
    IsByName d × ((k : String) (t : ToolDef) → lookup k d ≡ some t → Advertised list_tools t)

put-AllAdvertised :
    (list_tools : Option String → Listed) (t : ToolDef) (d : List (String × ToolDef))
    → Advertised list_tools t
    → AllAdvertised list_tools d
    → AllAdvertised list_tools (put t.name t d)
put-AllAdvertised list_tools t d new (by_name, old) = (
  put-IsByName t.name t d refl by_name,
  λ k u h. elim (Bool-cases (str_eq t.name k)) [
    | inl e ↦
        let there : lookup k (put t.name t d) ≡ some t =
          subst (λ x. lookup x (put t.name t d) ≡ some t) ((eq_iff t.name k).0 e)
            (lookup-put t.name t d) in
        let is : t ≡ u = cc (there, h) in subst (Advertised list_tools) is new
    | inr e ↦ old k u (sym (lookup-put_other t.name k t d e) ∙ h)
  ],
)

add_tools-AllAdvertised :
    (list_tools : Option String → Listed) (xs : List McpTool) (s : Found)
    → ((x : McpTool) → Memᴰ x xs → Advertised list_tools (tool_def_of x))
    → AllAdvertised list_tools s.tools
    → AllAdvertised list_tools (add_tools xs s).tools
unfolding add_tools
add_tools-AllAdvertised list_tools [] s each h = h
add_tools-AllAdvertised list_tools (x ∷ xs) s each h =
    add_tools-AllAdvertised list_tools xs (add_tool (tool_def_of x) s) (λ y m. each y (Memᴰ.tail m))
      (put-AllAdvertised list_tools (tool_def_of x) s.tools (each x (Memᴰ.head refl)) h)

abbrev AdvertisedAfter : (Option String → Listed) → Discovery → Type 0
AdvertisedAfter list_tools (found s) = AllAdvertised list_tools s.tools
AdvertisedAfter list_tools _ = Unit

next_page-Advertised :
    (list_tools : Option String → Listed) (next : String → Found → Discovery) (s : Found)
    (o : Option String)
    → ((c : String) (s' : Found)
        → AllAdvertised list_tools s'.tools
        → AdvertisedAfter list_tools (next c s'))
    → AllAdvertised list_tools s.tools
    → AdvertisedAfter list_tools (next_page next s o)
next_page-Advertised list_tools next s none each h = h
next_page-Advertised list_tools next s (some c) each h = each c s h

after_page-Advertised :
    (list_tools : Option String → Listed) (next : String → Found → Discovery) (s : Found)
    (cursor : Option String) (l : Listed)
    → list_tools cursor ≡ l
    → ((c : String) (s' : Found)
        → AllAdvertised list_tools s'.tools
        → AdvertisedAfter list_tools (next c s'))
    → AllAdvertised list_tools s.tools
    → AdvertisedAfter list_tools (after_page next s l)
after_page-Advertised list_tools next s cursor (list_exception message) e each h = tt
after_page-Advertised list_tools next s cursor (page p) e each h =
    next_page-Advertised list_tools next (add_tools p.tools s) p.next_cursor each
      (add_tools-AllAdvertised list_tools p.tools s (λ x m. (cursor, p, e, x, m, refl)) h)

discover_from-Advertised :
    (list_tools : Option String → Listed) (fuel : ℕ) (cursor : Option String) (s : Found)
    → AllAdvertised list_tools s.tools
    → AdvertisedAfter list_tools (discover_from list_tools fuel cursor s)
unfolding discover_from
discover_from-Advertised list_tools zero cursor s h = tt
discover_from-Advertised list_tools (suc fuel) cursor s h =
    after_page-Advertised list_tools (λ c. discover_from list_tools fuel (some c)) s cursor
      (list_tools cursor) refl (λ c. discover_from-Advertised list_tools fuel (some c)) h

-- a new adapter holds only tools that its server lists
pub discover-AllAdvertised :
    (list_tools : Option String → Listed) (fuel : ℕ) (s : Found)
    → discover list_tools fuel [] ≡ found s
    → AllAdvertised list_tools s.tools
unfolding discover lookup
discover-AllAdvertised list_tools fuel s e = subst (AdvertisedAfter list_tools) e (
    discover_from-Advertised list_tools fuel none (record { tools = []; discovered = [] })
      (tt, λ k t h. cc))

-- a tool of an MCP server that has the risk `sensitive` is one with the destructive hint
pub sensitive_destructive :
    (x : McpTool) → (tool_def_of x).risk ≡ sensitive → destructive x.annotations ≡ true
unfolding tool_def_of
sensitive_destructive x h = elim (Bool-cases (destructive x.annotations)) [
  | inl e ↦ e
  | inr e ↦ ground arith
]
