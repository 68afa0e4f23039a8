-- ===== src/Subagent.antt =====
-- app/capabilities/subagent.py: `ReActExecutor.execute`. The gateway answers a list of messages,
-- and may answer the n-th call of an execution as it likes; a message holds the values that its text
-- is made of. The trace of an execution says how often it called the gateway, and which tools it
-- invoked, in order. The metadata of a result is left out but for the steps of a success.
pub mod Bounded
use fastapi_langgraph_templa.Common.{
  ℕ, zero, suc, ◌+◌, String, str_eq, str_append, List, [], ◌∷◌, ◌++◌, map, Option, none, some, Bool,
  true, false, not, ◌&&◌, ◌||◌, ◌==◌, if◌then◌else◌, filter,
}
use fastapi_langgraph_templa.Common.Names.{contains}
use fastapi_langgraph_templa.State.{NormalizedError}
use fastapi_langgraph_templa.Json.{Json, Fields}
use fastapi_langgraph_templa.Tools.{
  ToolDef, ToolRegistry, ToolResult, Invocation, not_found, not_permitted, result, ainvoke,
  list_tools,
}

pub record SubagentTask : Type 0 where
  pub task : String
  pub selected_context : List String
  pub allowed_tools : List String
  pub expected_output_schema : Option Json
  pub template : String

pub data Action : Type 0 where
  tool final : Action

pub record SubagentDecision : Type 0 where
  pub action : Action
  pub tool_name : Option String
  pub arguments : Fields
  pub answer : Option String

pub data Message : Type 0 where
  system : SubagentTask → List ToolDef → Message
  user : String → Message
  assistant_plan : String → Message
  assistant : SubagentDecision → Message
  tool_answer : String → ToolResult → Message

-- `structured`, already validated, is `none` where it is missing.
pub record ModelResult : Type 0 where
  pub content : String
  pub structured : Option SubagentDecision
  pub error : Option NormalizedError

abbrev pub Gateway : Type 0
Gateway = ℕ → List Message → ModelResult

pub data SubagentResult : Type 0 where
  success : String → ℕ → SubagentResult
  error : String → SubagentResult
  unknown_tools : List String → SubagentResult
  timeout : SubagentResult

-- a result, or an exception of the registry
pub data Ended : Type 0 where
  gave : SubagentResult → Ended
  raised : String → Ended

pub record Execution : Type 0 where
  pub ended : Ended
  pub calls : ℕ
  pub invoked : List String

-- the end of an execution without another call of the gateway
abbrev pub ends : Ended → ℕ → Execution
ends e calls = record { ended = e; calls = calls; invoked = [] }

abbrev pub invoking : String → Execution → Execution
invoking name x = record x { invoked = name ∷ x.invoked }

abbrev pub message_or : Option NormalizedError → String → String
message_or none d = d
message_or (some e) d = e.message

-- `decision.answer or ""`
abbrev pub answer_or_blank : Option String → String
answer_or_blank none = ""
answer_or_blank (some s) = s

-- `not decision.tool_name or decision.tool_name not in task.allowed_tools`, negated
abbrev pub allowed_name : SubagentTask → Option String → Option String
allowed_name task none = none
allowed_name task (some name) =
    if str_eq name "" || not (contains task.allowed_tools name) then none else some name

abbrev pub shown_name : Option String → String
shown_name none = "None"
shown_name (some s) = s

module _ (matches : String → String → Bool) (registry : ToolRegistry) (complete : Gateway)
    (task : SubagentTask) where
  abbrev pub after_tool : (ToolResult → Execution) → ℕ → String → Invocation → Execution
  after_tool continue calls name (not_found message) = ends (raised message) calls
  after_tool continue calls name (not_permitted message) = ends (raised message) calls
  after_tool continue calls name (result r) = invoking name (continue r)

  -- what a decision leads to; `continue` is the rest of the loop, after the answer of a tool
  abbrev pub act_tool :
      (String → ToolResult → Execution) → ℕ → SubagentDecision → Option String → Execution
  act_tool continue calls d none =
      ends (gave (error (str_append "tool not allowed: " (shown_name d.tool_name)))) calls
  act_tool continue calls d (some name) =
      after_tool (continue name) calls name (ainvoke matches registry name d.arguments)

  abbrev pub act_on :
      (SubagentDecision → String → ToolResult → Execution)
      → ℕ
      → ℕ
      → SubagentDecision
      → Action
      → Execution
  act_on continue step calls d final = ends (gave (success (answer_or_blank d.answer) step)) calls
  act_on continue step calls d tool = act_tool (continue d) calls d (allowed_name task d.tool_name)

  abbrev pub act :
      (SubagentDecision → String → ToolResult → Execution)
      → ℕ
      → ℕ
      → Option NormalizedError
      → Option SubagentDecision
      → Execution
  act continue step calls failure none =
      ends (gave (error (message_or failure "invalid subagent decision"))) calls
  act continue step calls (some e) (some d) = ends (gave (error e.message)) calls
  act continue step calls none (some d) = act_on continue step calls d d.action

  -- `for step in range(1, max_steps + 1)`, with the steps that are left
  unfoldable pub react : ℕ → ℕ → ℕ → List Message → Execution
  react zero step calls messages = ends (gave timeout) calls
  react (suc left) step calls messages =
      let response = complete calls messages in
      act
        (λ d name r.
          react left (suc step) (suc calls) (messages ++ assistant d ∷ tool_answer name r ∷ []))
        step (suc calls) response.error response.structured

  unfoldable pub start_messages : List Message
  start_messages =
      system task
        (filter (λ (t : ToolDef). contains task.allowed_tools t.name) (list_tools registry))
      ∷ user task.task
      ∷ []

  -- the plan of a planner, before the loop
  abbrev pub with_plan : ℕ → String → Option NormalizedError → Execution
  with_plan max_steps content (some e) = ends (gave (error e.message)) 1
  with_plan max_steps content none =
      react max_steps 1 1 (start_messages ++ assistant_plan content ∷ [])

  abbrev pub plan_messages : List Message
  plan_messages =
      start_messages ++ user "Produce a concise execution plan. Do not call tools yet." ∷ []

  -- after the tests, with the allowed tools that the registry does not have
  abbrev pub execute_known : ℕ → List String → Execution
  execute_known max_steps (name ∷ names) = ends (gave (unknown_tools (name ∷ names))) 0
  execute_known max_steps [] =
      if str_eq task.template "planner_react"
      then with_plan max_steps (complete 0 plan_messages).content (complete 0 plan_messages).error
      else react max_steps 1 0 start_messages

  unfoldable pub execute : ℕ → ℕ → Execution
  execute max_steps depth =
      if not (depth == 0)
      then ends (gave (error "maximum delegation depth exceeded")) 0
      else if not (str_eq task.template "react" || str_eq task.template "planner_react")
      then ends (gave (error (str_append "unknown template: " task.template))) 0
      else execute_known max_steps (
          filter (λ name. not (contains (map (λ (t : ToolDef). t.name) (list_tools registry)) name))
            task.allowed_tools)
