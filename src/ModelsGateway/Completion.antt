-- ===== src/ModelsGateway/Completion.antt =====
-- `LiteLLMModelGateway.complete` of app/models_gateway.py. `provider` stands for LiteLLM's
-- `acompletion`, awaited: it answers, or raises an exception with the name of its class, its status
-- code and its text. `parse` stands for `model_validate_json` of the schema. Spans, metrics, the
-- temperature, the credentials and the budgets of the call are left out.
pub mod Shaped
use fastapi_langgraph_templa.Common.{
  ℕ, String, str_eq, List, [], ◌∷◌, Option, none, some, Bool, true, false, ◌||◌, if◌then◌else◌,
  is_none,
}
use fastapi_langgraph_templa.State.{NormalizedError}
use fastapi_langgraph_templa.Json.{Json, Fields, bool, text, obj, end, field}
use fastapi_langgraph_templa.Graph.Validator.{get_field}
use fastapi_langgraph_templa.ModelsGateway.{normalize_model_error}

-- the dict of a message; its content may be missing
pub record Message : Type 0 where
  pub role : String
  pub content : Option String

pub record ModelRequest : Type 0 where
  pub model : String
  pub messages : List Message
  pub structured : Bool  -- `response_schema is not None`
  pub call_id : Option String
  pub metadata : Fields

pub record ModelResult (A : Type 0) : Type 0 where
  pub content : String
  pub structured : Option A
  pub model : Option String
  pub served_model : Option String
  pub fallback : Bool
  pub call_id : Option String
  pub usage : Fields
  pub error : Option NormalizedError

abbrev pub success : {A : Type 0} → ModelResult A → Bool
success r = is_none r.error

-- what `acompletion` is called with
pub record Call : Type 0 where
  pub model : String
  pub messages : List Message
  pub metadata : Fields
  pub structured : Bool

-- a response: of each choice the content of its message
pub record Response : Type 0 where
  pub model : Option String
  pub hidden_params : Json
  pub choices : List (Option String)
  pub usage : Option Fields

pub data Answer : Type 0 where
  responded : Response → Answer
  raised : String → Option ℕ → String → Answer

-- `s or d`
abbrev pub or_default : String → String → String
or_default s d = if str_eq s "" then d else s

-- `metadata.setdefault(key, value)`
abbrev pub set_default : String → Json → Fields → Fields
set_default key value end = field key value end
set_default key value (field k v fs) =
    let rest = set_default key value fs in if str_eq k key then field k v fs else field k v rest

abbrev pub with_call_id : Option String → Fields → Fields
with_call_id none metadata = metadata
with_call_id (some call_id) metadata =
    if str_eq call_id "" then metadata else set_default "call_id" (text call_id) metadata

abbrev pub is_true : Option Json → Bool
is_true (some (bool b)) = b
is_true _ = false

-- only where the gateway reports it
abbrev pub reports_fallback : Json → Bool
reports_fallback (obj hidden) =
    is_true (get_field "fallback" hidden)
    || is_true (get_field "fallback_used" hidden)
    || is_true (get_field "litellm_fallback" hidden)
reports_fallback _ = false

abbrev pub content_of : Option String → String
content_of none = ""
content_of (some s) = s

abbrev pub usage_of : Option Fields → Fields
usage_of none = end
usage_of (some fs) = fs

unfoldable pub failed_call :
    {A : Type 0} → ModelRequest → String → Option ℕ → String → ModelResult A
failed_call request name status message = record {
  content = "";
  structured = none;
  model = none;
  served_model = none;
  fallback = false;
  call_id = request.call_id;
  usage = end;
  error = some (normalize_model_error name status message);
}

module _ {A : Type 0} (default_model : String) (provider : Call → Answer)
    (parse : String → Option A) (parse_error : String) where
  abbrev pub call_of : ModelRequest → Call
  call_of request = record {
    model = or_default request.model default_model;
    messages = request.messages;
    metadata = with_call_id request.call_id request.metadata;
    structured = request.structured;
  }

  abbrev pub completed : ModelRequest → Response → String → Option A → ModelResult A
  completed request response content structured = record {
    content = content;
    structured = structured;
    model = some (or_default request.model default_model);
    served_model = response.model;
    fallback = reports_fallback response.hidden_params;
    call_id = request.call_id;
    usage = usage_of response.usage;
    error = none;
  }

  abbrev pub validated : ModelRequest → Response → String → Option A → ModelResult A
  validated request response content none = failed_call request "ValidationError" none parse_error
  validated request response content (some a) = completed request response content (some a)

  -- `structured` is set where a schema is given
  abbrev pub structure : ModelRequest → Response → String → ModelResult A
  structure request response content =
      if request.structured
      then validated request response content (parse content)
      else completed request response content none

  abbrev pub first_choice : ModelRequest → Response → List (Option String) → ModelResult A
  first_choice request response [] = failed_call request "IndexError" none "list index out of range"
  first_choice request response (c ∷ cs) = structure request response (content_of c)

  abbrev pub complete_answer : ModelRequest → Answer → ModelResult A
  complete_answer request (raised name status message) = failed_call request name status message
  complete_answer request (responded response) = first_choice request response response.choices

  unfoldable pub complete : ModelRequest → ModelResult A
  unfolding failed_call
  complete request = complete_answer request (provider (call_of request))
