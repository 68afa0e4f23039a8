-- ===== src/Tools/Bootstrap/Gated.antt =====
-- Which tools of a Worker's registry wait for an approval.
use mathlib.Core.List.{Memᴰ}
use fastapi_langgraph_templa.Common.{
  ℕ, String, str_eq, ◌≡◌, refl, ap, sym, ◌∙◌, subst, List, [], ◌∷◌, Option, none, some, true, inl,
  inr, arith, Bool-cases, Option-cases,
}
use fastapi_langgraph_templa.Common.Table.{or_else}
use fastapi_langgraph_templa.Common.Dict.{lookup, put}
use fastapi_langgraph_templa.Json.{Json, Fields}
use fastapi_langgraph_templa.Graph.Runtime.{is_sensitive_risk, tool_requires_approval}
use fastapi_langgraph_templa.Tools.{
  ToolDef, ToolRisk, read, write, sensitive, ToolRegistry, Called, register, register_callable,
}
use fastapi_langgraph_templa.Tools.Binding.{bind_tools}
use fastapi_langgraph_templa.Tools.Binding.Found.{IsByName, bind_tools-lookup}
use fastapi_langgraph_templa.Tools.Mcp
use fastapi_langgraph_templa.Tools.Mcp.{McpTool, Page, Listed, page, destructive, tool_def_of}
use fastapi_langgraph_templa.Tools.Mcp.Advertised.{
  Advertised, AllAdvertised, discover-AllAdvertised, sensitive_destructive,
}
use fastapi_langgraph_templa.Tools.OpenApi.{Adapter, Operation}
use fastapi_langgraph_templa.Tools.OpenApi.Explore
use fastapi_langgraph_templa.Tools.OpenApi.Explore.{new_adapter}
use fastapi_langgraph_templa.Tools.OpenApi.Discovered.{Described, IsDescribed, discover-IsDescribed}
use fastapi_langgraph_templa.Tools.Bootstrap.{
  base_of, Outside, Built, built, start_exception, too_many_pages, ◌and_bind◌, bind_mcp, add_mcp,
  get_spec, discover_spec, bind_openapi, add_openapi, builtin_registry, build_tool_registry,
}

module _ (out : Outside) (endpoints : List String) where
  -- the server at one of the endpoints lists the tool, with the destructive hint
  abbrev pub IsDestructive : ToolDef → Type 0
  IsDestructive t =
      (endpoint : String) × Memᴰ endpoint endpoints
      × (cursor : Option String) × (p : Page) × (out.list_tools endpoint cursor ≡ page p)
      × (x : McpTool) × Memᴰ x p.tools
      × (tool_def_of x ≡ t)
      × (destructive x.annotations ≡ true)

  -- a tool that is not sensitive, or is listed as destructive
  abbrev pub IsGated : ToolDef → Type 0
  IsGated t = is_sensitive_risk t.risk ≡ true → IsDestructive t

  abbrev pub AllGated : ToolRegistry → Type 0
  AllGated r = (k : String) (t : ToolDef) → lookup k r.tools ≡ some t → IsGated t

  abbrev GatedAfter : Built → Type 0
  GatedAfter (built r) = AllGated r
  GatedAfter _ = Unit

  or_else_Gated :
      (a b : Option ToolDef) (t : ToolDef)
      → ((u : ToolDef) → a ≡ some u → IsGated u)
      → ((u : ToolDef) → b ≡ some u → IsGated u)
      → or_else a b ≡ some t
      → IsGated t
  or_else_Gated none b t f g h = g t h
  or_else_Gated (some u) b t f g h = f t h

  -- an adapter whose tools are gated, bound to a registry whose tools are gated
  bind_tools-Gated :
      (call : Json → Fields → Called) (tools : List (String × ToolDef)) (r : ToolRegistry)
      → IsByName tools
      → ((k : String) (t : ToolDef) → lookup k tools ≡ some t → IsGated t)
      → AllGated r
      → AllGated (bind_tools call tools r)
  bind_tools-Gated call tools r by_name new old k t h =
      or_else_Gated (lookup k tools) (lookup k r.tools) t (new k) (old k)
        (sym (bind_tools-lookup call k tools r by_name).0 ∙ h)

  and_bind-Gated :
      (b : Built) (f : ToolRegistry → Built)
      → GatedAfter b
      → ((r : ToolRegistry) → AllGated r → GatedAfter (f r))
      → GatedAfter (b and_bind f)
  and_bind-Gated (built r) f h each = each r h
  and_bind-Gated start_exception f h each = tt
  and_bind-Gated too_many_pages f h each = tt

  is_sensitive : (risk : ToolRisk) → is_sensitive_risk risk ≡ true → risk ≡ sensitive
  is_sensitive read h = ground arith
  is_sensitive write h = ground arith
  is_sensitive sensitive h = refl

  Advertised-IsGated :
      (endpoint : String) (t : ToolDef)
      → Memᴰ endpoint endpoints
      → Advertised (out.list_tools endpoint) t
      → IsGated t
  Advertised-IsGated endpoint t m (cursor, p, e, x, n, is) h = (
    endpoint,
    m,
    cursor,
    p,
    e,
    x,
    n,
    is,
    sensitive_destructive x (ap (λ (u : ToolDef). u.risk) is ∙ is_sensitive t.risk h),
  )

  bind_mcp-Gated :
      (endpoint : String) (d : Mcp.Discovery) (r : ToolRegistry)
      → Memᴰ endpoint endpoints
      → ((s : Mcp.Found) → d ≡ Mcp.found s → AllAdvertised (out.list_tools endpoint) s.tools)
      → AllGated r
      → GatedAfter (bind_mcp out endpoint d r)
  bind_mcp-Gated endpoint (Mcp.found s) r m advertised h =
      bind_tools-Gated _ s.tools r (advertised s refl).0
        (λ k t there. Advertised-IsGated endpoint t m ((advertised s refl).1 k t there)) h
  bind_mcp-Gated endpoint (Mcp.failed message) r m advertised h = tt
  bind_mcp-Gated endpoint Mcp.no_fuel r m advertised h = tt

  add_mcp-Gated :
      (pages : ℕ) (es : List String) (r : ToolRegistry)
      → ((e : String) → Memᴰ e es → Memᴰ e endpoints)
      → AllGated r
      → GatedAfter (add_mcp out pages es r)
  unfolding add_mcp
  add_mcp-Gated pages [] r among h = h
  add_mcp-Gated pages (e ∷ es) r among h =
      and_bind-Gated (bind_mcp out e (Mcp.discover (out.list_tools e) pages []) r)
        (add_mcp out pages es)
        (bind_mcp-Gated e (Mcp.discover (out.list_tools e) pages []) r (among e (Memᴰ.head refl))
          (discover-AllAdvertised (out.list_tools e) pages) h)
        (λ r' h'. add_mcp-Gated pages es r' (λ x m. among x (Memᴰ.tail m)) h')

  Described-IsGated :
      (k : String) (t : ToolDef) (o : Option Operation) → Described k t o → IsGated t
  Described-IsGated k t o (named, source, (op, is, inl (risk, get_))) h = ground arith
  Described-IsGated k t o (named, source, (op, is, inr (risk, other))) h = ground arith

  bind_openapi-Gated :
      (d : Explore.Discovery) (r : ToolRegistry)
      → ((a : Adapter) (found : List ToolDef) → d ≡ some (a, found) → IsDescribed a)
      → AllGated r
      → GatedAfter (bind_openapi out d r)
  bind_openapi-Gated none r described h = tt
  bind_openapi-Gated (some (a, found)) r described h =
      bind_tools-Gated _ a.tools r (described a found refl).0
        (λ k t there. Described-IsGated k t _ ((described a found refl).1 k t there)) h

  discover_spec-IsDescribed :
      (url : String) (spec : Option Fields) (a : Adapter) (found : List ToolDef)
      → discover_spec out url spec ≡ some (a, found)
      → IsDescribed a
  unfolding lookup
  discover_spec-IsDescribed url none a found e = ground arith
  discover_spec-IsDescribed url (some spec) a found e =
      discover-IsDescribed out.urljoin spec (new_adapter url [] (base_of url)) a found
        (tt, λ k t h. cc) e

  add_openapi-Gated :
      (urls : List String) (r : ToolRegistry) → AllGated r → GatedAfter (add_openapi out urls r)
  unfolding add_openapi
  add_openapi-Gated [] r h = h
  add_openapi-Gated (url ∷ urls) r h =
      let d = discover_spec out url (get_spec out url) in
      and_bind-Gated (bind_openapi out d r) (add_openapi out urls)
        (bind_openapi-Gated d r (discover_spec-IsDescribed url (get_spec out url)) h)
        (add_openapi-Gated urls)

  builtin-Gated : AllGated (builtin_registry out.python)
  unfolding lookup put register register_callable
  builtin-Gated k t h = elim (Bool-cases (str_eq "calculator" k)) [
    | inl e ↦ ground arith
    | inr e ↦ elim (Bool-cases (str_eq "datetime" k)) [
      | inl f ↦ ground arith
      | inr f ↦ ground arith
    ]
  ]

  build_tool_registry-Gated :
      (pages : ℕ) (urls : List String) → GatedAfter (build_tool_registry out pages endpoints urls)
  unfolding build_tool_registry
  build_tool_registry-Gated pages urls =
      and_bind-Gated (add_mcp out pages endpoints (builtin_registry out.python))
        (add_openapi out urls)
        (add_mcp-Gated pages endpoints (builtin_registry out.python) (λ e m. m) builtin-Gated)
        (add_openapi-Gated urls)

required_sensitive :
    (r : ToolRegistry) (k : String)
    → tool_requires_approval r k ≡ true
    → (t : ToolDef) × (lookup k r.tools ≡ some t) × (is_sensitive_risk t.risk ≡ true)
unfolding tool_requires_approval
required_sensitive r k h = elim (Option-cases (lookup k r.tools)) [
  | inl absent ↦ ground arith
  | inr (t, there) ↦ (t, there, ground arith)
]

-- In a registry that a Worker has built, a tool waits for an approval only if it is in the registry
-- and a configured MCP server lists it with the destructive hint: neither a built-in tool nor a tool
-- of an OpenAPI document ever waits for one.
pub requires_approval-IsDestructive :
    (out : Outside) (pages : ℕ) (endpoints urls : List String) (r : ToolRegistry) (k : String)
    → build_tool_registry out pages endpoints urls ≡ built r
    → tool_requires_approval r k ≡ true
    → (t : ToolDef) × (lookup k r.tools ≡ some t) × IsDestructive out endpoints t
requires_approval-IsDestructive out pages endpoints urls r k e required =
    let (t, there, risky) = required_sensitive r k required in
    (
      t,
      there,
      subst (GatedAfter out endpoints) e (build_tool_registry-Gated out endpoints pages urls) k t
          there risky,
    )
