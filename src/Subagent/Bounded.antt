-- ===== src/Subagent/Bounded.antt =====
-- The bounds of a subagent.
use fastapi_langgraph_templa.Common.{
  ℕ, zero, suc, ◌+◌, ◌≤◌, String, str_eq, ◌≡◌, refl, List, [], ◌∷◌, Option, none, some, Bool, true,
  not, ◌||◌, ◌==◌, arith, length, All, Bool-cases, inl, inr,
}
use fastapi_langgraph_templa.Common.Names.{contains}
use fastapi_langgraph_templa.Common.Dict.{lookup}
use fastapi_langgraph_templa.State.{NormalizedError}
use fastapi_langgraph_templa.Tools.{
  ToolDef, ToolRegistry, ToolResult, Invocation, not_found, not_permitted, result, ainvoke,
}
use fastapi_langgraph_templa.Tools.Permitted.{Permitted, ainvoke_iff}
use fastapi_langgraph_templa.Subagent.{
  SubagentTask, SubagentDecision, Action, act_on, tool, final, Gateway, Ended, Execution, Message,
  ends, allowed_name, after_tool, act_tool, act, react, with_plan, execute, execute_known,
}

module _ (matches : String → String → Bool) (registry : ToolRegistry) (complete : Gateway)
    (task : SubagentTask) where
  -- the task allows the tool, the registry has it, and its scope permits it
  abbrev pub MayRun : String → Type 0
  MayRun name =
      (contains task.allowed_tools name ≡ true)
      × ((t : ToolDef) × (lookup name registry.tools ≡ some t))
      × Permitted matches registry.scope name

  -- With n steps left after the given calls: the calls and the tools are no more than that allows,
  -- and every tool may run.
  pub record IsBounded (n calls : ℕ) (x : Execution) : Type 0 where
    pub few_calls : x.calls ≤ calls + n
    pub few_tools : length x.invoked ≤ n
    pub may_run : All MayRun x.invoked

  ends-IsBounded : (n calls c : ℕ) (e : Ended) → c ≤ calls + n → IsBounded n calls (ends e c)
  ends-IsBounded n calls c e h = record { few_calls = h; few_tools = omega arith; may_run = tt }

  allowed :
      (o : Option String) (name : String)
      → allowed_name task o ≡ some name
      → contains task.allowed_tools name ≡ true
  allowed none name h = cc
  allowed (some x) name h = elim (Bool-cases (str_eq x "" || not (contains task.allowed_tools x))) [
    | inl bad ↦ cc (rw bad at h)
    | inr ok ↦
        let same : some x ≡ some name = rw ok at h in
        let inside : contains task.allowed_tools x ≡ true = ground arith in cc (same, inside)
  ]

  module _ (n calls : ℕ) (continue : ToolResult → Execution)
      (rest : (r : ToolResult) → IsBounded n (suc calls) (continue r)) where
    after_tool-IsBounded :
        (d : SubagentDecision) (name : String) (i : Invocation)
        → contains task.allowed_tools name ≡ true
        → ainvoke matches registry name d.arguments ≡ i
        → IsBounded
            (suc n)
            calls
            (after_tool matches registry complete task continue (suc calls) name i)
    after_tool-IsBounded d name (not_found m) ok e =
        ends-IsBounded (suc n) calls (suc calls) _ (omega arith)
    after_tool-IsBounded d name (not_permitted m) ok e =
        ends-IsBounded (suc n) calls (suc calls) _ (omega arith)
    after_tool-IsBounded d name (result r) ok e =
        let may = (ainvoke_iff matches registry name d.arguments).0 (r, e) in
        record {
          few_calls = omega (arith, (rest r).few_calls);
          few_tools = omega (arith, (rest r).few_tools);
          may_run = ((ok, may.0, may.1), (rest r).may_run);
        }

  module _ (n step calls : ℕ) (continue : SubagentDecision → String → ToolResult → Execution)
      (rest : (d : SubagentDecision) (name : String) (r : ToolResult)
        → IsBounded n (suc calls) (continue d name r)) where
    act_tool-IsBounded :
        (d : SubagentDecision) (o : Option String)
        → ((name : String) → o ≡ some name → contains task.allowed_tools name ≡ true)
        → IsBounded
            (suc n)
            calls
            (act_tool matches registry complete task (continue d) (suc calls) d o)
    act_tool-IsBounded d none ok = ends-IsBounded (suc n) calls (suc calls) _ (omega arith)
    act_tool-IsBounded d (some name) ok =
        after_tool-IsBounded n calls (continue d name) (rest d name) d name _ (ok name refl) refl

    act_on-IsBounded :
        (d : SubagentDecision) (a : Action)
        → IsBounded
            (suc n)
            calls
            (act_on matches registry complete task continue step (suc calls) d a)
    act_on-IsBounded d final = ends-IsBounded (suc n) calls (suc calls) _ (omega arith)
    act_on-IsBounded d tool =
        act_tool-IsBounded d (allowed_name task d.tool_name) (allowed d.tool_name)

    act-IsBounded :
        (failure : Option NormalizedError) (o : Option SubagentDecision)
        → IsBounded
            (suc n)
            calls
            (act matches registry complete task continue step (suc calls) failure o)
    act-IsBounded failure none = ends-IsBounded (suc n) calls (suc calls) _ (omega arith)
    act-IsBounded (some e) (some d) = ends-IsBounded (suc n) calls (suc calls) _ (omega arith)
    act-IsBounded none (some d) = act_on-IsBounded d d.action

  react-IsBounded :
      (left step calls : ℕ) (messages : List Message)
      → IsBounded left calls (react matches registry complete task left step calls messages)
  unfolding react
  react-IsBounded zero step calls messages = ends-IsBounded zero calls calls _ (omega arith)
  react-IsBounded (suc left) step calls messages =
      act-IsBounded left step calls _ (λ d name r. react-IsBounded left (suc step) (suc calls) _)
        (complete calls messages).error (complete calls messages).structured

  -- the bounds of a whole execution
  pub record IsWithin (max_steps : ℕ) (x : Execution) : Type 0 where
    pub calls_within : x.calls ≤ suc max_steps
    pub tools_within : length x.invoked ≤ max_steps
    pub all_may_run : All MayRun x.invoked

  ends-IsWithin : (max_steps c : ℕ) (e : Ended) → c ≤ suc max_steps → IsWithin max_steps (ends e c)
  ends-IsWithin max_steps c e h = record {
    calls_within = h;
    tools_within = omega arith;
    all_may_run = tt;
  }

  react-IsWithin :
      (max_steps calls : ℕ) (messages : List Message)
      → calls ≤ 1
      → IsWithin max_steps (react matches registry complete task max_steps 1 calls messages)
  react-IsWithin max_steps calls messages h =
      let b = react-IsBounded max_steps 1 calls messages in
      record {
        calls_within = omega (arith, b.few_calls);
        tools_within = b.few_tools;
        all_may_run = b.may_run;
      }

  with_plan-IsWithin :
      (max_steps : ℕ) (content : String) (o : Option NormalizedError)
      → IsWithin max_steps (with_plan matches registry complete task max_steps content o)
  with_plan-IsWithin max_steps content (some e) = ends-IsWithin max_steps 1 _ (omega arith)
  with_plan-IsWithin max_steps content none = react-IsWithin max_steps 1 _ (omega arith)

  execute_known-IsWithin :
      (max_steps : ℕ) (unknown : List String)
      → IsWithin max_steps (execute_known matches registry complete task max_steps unknown)
  execute_known-IsWithin max_steps (name ∷ names) = ends-IsWithin max_steps 0 _ (omega arith)
  execute_known-IsWithin max_steps [] = elim (Bool-cases (str_eq task.template "planner_react")) [
    | inl planner ↦ rw planner (with_plan-IsWithin max_steps _ _)
    | inr other ↦ rw other (react-IsWithin max_steps 0 _ (omega arith))
  ]

  -- Whatever the model answers, `execute` ends after `max_steps` calls of the gateway, and one more
  -- for the plan, and invokes at most `max_steps` tools, each of them one that the task allows, the
  -- registry has, and its scope permits.
  pub execute-IsWithin :
      (max_steps depth : ℕ)
      → IsWithin max_steps (execute matches registry complete task max_steps depth)
  unfolding execute
  execute-IsWithin max_steps depth = elim (Bool-cases (depth == 0)) [
    | inr nested ↦ rw nested (ends-IsWithin max_steps 0 _ (omega arith))
    | inl top ↦
        elim (Bool-cases (str_eq task.template "react" || str_eq task.template "planner_react")) [
          | inr strange ↦ rw (top, strange) (ends-IsWithin max_steps 0 _ (omega arith))
          | inl known ↦ rw (top, known) (execute_known-IsWithin max_steps _)
        ]
  ]
