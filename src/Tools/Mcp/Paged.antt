-- ===== src/Tools/Mcp/Paged.antt =====
-- The pages that `discover` of app/tools/mcp_adapter.py reads.
use mathlib.Core.List.{append-nil, append_assoc, map-append}
use fastapi_langgraph_templa.Common.{
  arith, ℕ, suc, ◌+◌, String, ◌≡◌, ap, sym, ◌∙◌, List, [], ◌∷◌, ◌++◌, map, Option, none, some,
  length,
}
use fastapi_langgraph_templa.Tools.{ToolDef}
use fastapi_langgraph_templa.Tools.Mcp.{
  McpTool, Page, Listed, page, tool_def_of, Found, add_tool, add_tools, found, next_page,
  after_page, discover_from, discover,
}

-- the pages of a server from a cursor on: each gives the cursor of the next, but the last one none
pub data Pages : (Option String → Listed) → Option String → List Page → Type 0 where
  last :
      (list_tools : Option String → Listed) (cursor : Option String) (p : Page)
      → list_tools cursor ≡ page p
      → p.next_cursor ≡ none
      → Pages list_tools cursor (p ∷ [])
  next :
      (list_tools : Option String → Listed) (cursor : Option String) (p : Page) (c : String)
      (ps : List Page)
      → list_tools cursor ≡ page p
      → p.next_cursor ≡ some c
      → Pages list_tools (some c) ps
      → Pages list_tools cursor (p ∷ ps)

abbrev pub add_pages : List Page → Found → Found
add_pages [] s = s
add_pages (p ∷ ps) s = add_pages ps (add_tools p.tools s)

-- one page, read with fuel left
discover_from_page :
    (list_tools : Option String → Listed) (fuel : ℕ) (cursor : Option String) (p : Page)
    (o : Option String) (s : Found)
    → list_tools cursor ≡ page p
    → p.next_cursor ≡ o
    → discover_from list_tools (suc fuel) cursor s
      ≡ next_page (λ c. discover_from list_tools fuel (some c)) (add_tools p.tools s) o
unfolding discover_from
discover_from_page list_tools fuel cursor p o s h e =
    ap (after_page (λ c. discover_from list_tools fuel (some c)) s) h
    ∙ ap (next_page (λ c. discover_from list_tools fuel (some c)) (add_tools p.tools s)) e

suc_add : (a b : ℕ) → suc a + b ≡ suc (a + b)
suc_add a b = omega arith

discover_from-Pages :
    (list_tools : Option String → Listed) (cursor : Option String) (ps : List Page) (more : ℕ)
    (s : Found)
    → Pages list_tools cursor ps
    → discover_from list_tools (length ps + more) cursor s ≡ found (add_pages ps s)
discover_from-Pages list_tools cursor _ more s (last _ _ p h e) =
    ap (λ n. discover_from list_tools n cursor s) (suc_add 0 more)
    ∙ discover_from_page list_tools (0 + more) cursor p none s h e
discover_from-Pages list_tools cursor _ more s (next _ _ p c ps h e rest) =
    ap (λ n. discover_from list_tools n cursor s) (suc_add (length ps) more)
    ∙ discover_from_page list_tools (length ps + more) cursor p (some c) s h e
    ∙ discover_from-Pages list_tools (some c) ps more (add_tools p.tools s) rest

-- the tools that a server lists on some pages
abbrev pub all_tools : List Page → List McpTool
all_tools [] = []
all_tools (p ∷ ps) = p.tools ++ all_tools ps

add_tools-discovered :
    (xs : List McpTool) (s : Found)
    → (add_tools xs s).discovered ≡ s.discovered ++ map tool_def_of xs
unfolding add_tools
add_tools-discovered [] s = sym (append-nil s.discovered)
add_tools-discovered (x ∷ xs) s =
    add_tools-discovered xs (add_tool (tool_def_of x) s)
    ∙ append_assoc s.discovered (tool_def_of x ∷ []) (map tool_def_of xs)

add_pages-discovered :
    (ps : List Page) (s : Found)
    → (add_pages ps s).discovered ≡ s.discovered ++ map tool_def_of (all_tools ps)
add_pages-discovered [] s = sym (append-nil s.discovered)
add_pages-discovered (p ∷ ps) s =
    add_pages-discovered ps (add_tools p.tools s)
    ∙ ap (λ l. l ++ map tool_def_of (all_tools ps)) (add_tools-discovered p.tools s)
    ∙ append_assoc s.discovered (map tool_def_of p.tools) (map tool_def_of (all_tools ps))
    ∙ ap (λ l. s.discovered ++ l) (sym (map-append tool_def_of p.tools (all_tools ps)))

-- If the pages of the server end, then the discovery ends when it may read that many pages, or more.
-- It returns the tools of all the pages, in their order.
pub discover-Pages :
    (list_tools : Option String → Listed) (tools : List (String × ToolDef)) (ps : List Page)
    (more : ℕ)
    → Pages list_tools none ps
    → (s : Found) × (discover list_tools (length ps + more) tools ≡ found s)
      × (s.discovered ≡ map tool_def_of (all_tools ps))
unfolding discover
discover-Pages list_tools tools ps more h =
    let s : Found = record { tools = tools; discovered = [] } in
    (add_pages ps s, discover_from-Pages list_tools none ps more s h, add_pages-discovered ps s)
