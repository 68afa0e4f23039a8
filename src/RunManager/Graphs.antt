-- ===== src/RunManager/Graphs.antt =====
-- `load_graph` of app/runtime/run_manager.py, with its cache, and app/api/graphs.py. `files` stands
-- for the file system and `load_graph_from_yaml`: how the reading of the file at a path ends, or none
-- where no file is. `is_alnum` stands for `str.isalnum` on one character.
pub mod Cached
use Prim.Native.Char.{Char}
use Prim.Native.String
use fastapi_langgraph_templa.Common.{
  ℕ, String, str_eq, str_append, List, [], ◌∷◌, Option, none, some, Bool, true, false, ◌&&◌, ◌||◌,
  not, all, filter, if◌then◌else◌, length,
}
use fastapi_langgraph_templa.Common.Chars.{chars, of_chars}
use fastapi_langgraph_templa.Common.Dict.{lookup, put}
use fastapi_langgraph_templa.Graph.{AgentDefinition, CompiledGraph}
use fastapi_langgraph_templa.Graph.Validator.{Fault}
use fastapi_langgraph_templa.Graph.Compiler.{Compiled, compiled, rejected, compile_graph}
use fastapi_langgraph_templa.Api.Runs.{Response, success, http_error}

-- a definition, a ValueError (pydantic's too), or another exception
pub data Read : Type 0 where
  definition : AgentDefinition → Read
  read_value_error : String → Read
  read_exception : String → Read

pub data LoadEnd : Type 0 where
  loaded : CompiledGraph → LoadEnd
  value_error : String → LoadEnd
  file_not_found : String → LoadEnd
  graph_invalid : Fault → LoadEnd
  other_exception : String → LoadEnd

abbrev pub is_one : String → Char → Bool
is_one s c = str_eq (of_chars (c ∷ [])) s

abbrev pub is_joint : Char → Bool
is_joint c = is_one "-" c || is_one "_" c

abbrev pub some_all : (Char → Bool) → List Char → Bool
some_all is_alnum [] = false
some_all is_alnum (c ∷ cs) = all is_alnum (c ∷ cs)

-- `name.replace("-", "").replace("_", "").isalnum()`
abbrev pub is_graph_name : (Char → Bool) → String → Bool
is_graph_name is_alnum name = some_all is_alnum (filter (λ c. not (is_joint c)) (chars name))

-- `Path(self._graphs_dir) / f"{name}.yaml"`
abbrev pub path_of : String → String → String
path_of graphs_dir name = str_append graphs_dir (str_append "/" (str_append name ".yaml"))

-- `self._graphs`
abbrev pub Cache : Type 0
Cache = List (String × CompiledGraph)

abbrev pub store : String → Compiled → Cache → Cache × LoadEnd
store name (compiled g) cache = (put name g cache, loaded g)
store name (rejected fault) cache = (cache, graph_invalid fault)

abbrev pub read_file : String → Option Read → Cache → Cache × LoadEnd
read_file name none cache = (cache, file_not_found (str_append "graph not found: " name))
read_file name (some (definition d)) cache = store name (compile_graph d) cache
read_file name (some (read_value_error message)) cache = (cache, value_error message)
read_file name (some (read_exception message)) cache = (cache, other_exception message)

abbrev pub from_file :
    (Char → Bool) → String → (String → Option Read) → String → Cache → Cache × LoadEnd
from_file is_alnum graphs_dir files name cache =
    if is_graph_name is_alnum name
    then read_file name (files (path_of graphs_dir name)) cache
    else (cache, value_error "invalid graph name")

abbrev pub cached_or : Option CompiledGraph → Cache → Cache × LoadEnd → Cache × LoadEnd
cached_or (some g) cache rest = (cache, loaded g)
cached_or none cache rest = rest

unfoldable pub load_graph :
    (Char → Bool) → String → (String → Option Read) → String → Cache → Cache × LoadEnd
load_graph is_alnum graphs_dir files name cache =
    cached_or (lookup name cache) cache (from_file is_alnum graphs_dir files name cache)

-- `get_graph` of the API: what no handler catches is a status 500
abbrev pub graph_response : LoadEnd → Response AgentDefinition
graph_response (loaded g) = success g.definition
graph_response (value_error message) = http_error 404 message
graph_response (file_not_found message) = http_error 404 message
graph_response (graph_invalid fault) = http_error 500 "GraphValidationError"
graph_response (other_exception message) = http_error 500 message

unfoldable pub get_graph :
    (Char → Bool)
    → String
    → (String → Option Read)
    → String
    → Cache
    → Cache × Response AgentDefinition
get_graph is_alnum graphs_dir files name cache =
    let (cache', ended) = load_graph is_alnum graphs_dir files name cache in
    (cache', graph_response ended)

pub record Validated : Type 0 where
  pub valid : Bool
  pub supervisor_id : Option String
  pub node_count : ℕ

abbrev pub validation_response : Compiled → Response Validated
validation_response (compiled g) =
    success
      (record { valid = true; supervisor_id = g.supervisor_id; node_count = length g.node_map })
validation_response (rejected fault) = http_error 500 "GraphValidationError"

-- `validate_graph` of the API
unfoldable pub post_validate : AgentDefinition → Response Validated
post_validate d = validation_response (compile_graph d)
