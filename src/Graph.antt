-- ===== src/Graph.antt =====
-- app/graph/schemas.py: the graph DSL and the compiled graph. A dict is the list of its items.
pub mod Validator
pub mod Compiler
pub mod Routing
pub mod Runtime
pub mod Program
pub mod Nodes
use fastapi_langgraph_templa.Common.{String, List, Option, Bool, true, false}
use fastapi_langgraph_templa.Json.{Fields}

-- NodeType of app/core/state.py
pub data NodeType : Type 0 where
  llm supervisor tool rag subagent approval transform : NodeType

abbrev pub is_supervisor : NodeType → Bool
is_supervisor supervisor = true
is_supervisor _ = false

abbrev pub is_subagent : NodeType → Bool
is_subagent subagent = true
is_subagent _ = false

-- `in {"tool", "rag", "subagent", "approval"}`
abbrev pub is_capability : NodeType → Bool
is_capability tool = true
is_capability rag = true
is_capability subagent = true
is_capability approval = true
is_capability _ = false

pub record NodeDef : Type 0 where
  pub type : NodeType
  pub id : String
  pub prompt : Option String
  pub config : Fields

pub record EdgeDef : Type 0 where
  pub source : String
  pub target : String
  pub condition : Option String

pub record AgentDefinition : Type 0 where
  pub name : String
  pub nodes : List NodeDef
  pub edges : List EdgeDef
  pub entry : String
  pub exit : String

pub record CompiledGraph : Type 0 where
  pub definition : AgentDefinition
  pub node_map : List (String × NodeDef)
  pub out_edges : List (String × List EdgeDef)
  pub supervisor_id : Option String
  pub entry_id : String
  pub exit_id : String
