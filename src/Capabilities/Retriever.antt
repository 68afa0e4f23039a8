-- ===== src/Capabilities/Retriever.antt =====
-- app/capabilities/rag.py: the scope of the knowledge bases, and the retriever in memory. `matches`
-- stands for fnmatch. The slice of the chunks is for a `top_k` that is not negative.
use fastapi_langgraph_templa.Common.{
  ℕ, String, str_append, List, [], ◌∷◌, Option, none, some, Bool, false, not, is_none, any,
  if◌then◌else◌, take,
}
use fastapi_langgraph_templa.Common.Dict.{lookup, put, append_to}
use fastapi_langgraph_templa.State.{ErrorCategory}
use fastapi_langgraph_templa.Json.{Items, Fields, text, arr, obj, nil, cons, end, field}
use fastapi_langgraph_templa.Tools.{ToolResult, ok, fail, allow_all}

pub record RagScope : Type 0 where
  pub allow : List String
  pub deny : List String

-- `RAGScope.is_allowed`
unfoldable pub is_allowed : (String → String → Bool) → RagScope → String → Bool
is_allowed matches scope kb_id =
    if any (matches kb_id) scope.deny
    then false
    else allow_all scope.allow (any (matches kb_id) scope.allow)

pub record Chunk : Type 0 where
  pub id : String
  pub document_id : String
  pub knowledge_base_id : String
  pub content : String
  pub metadata : Fields

pub record KnowledgeBase : Type 0 where
  pub id : String
  pub name : String
  pub description : String
  pub embedding_model : String
  pub chunk_size : ℕ
  pub chunk_overlap : ℕ

pub record Retriever : Type 0 where
  pub scope : RagScope
  pub kbs : List (String × KnowledgeBase)
  pub chunks : List (String × List Chunk)

abbrev pub new_retriever : RagScope → Retriever
new_retriever scope = record { scope = scope; kbs = []; chunks = [] }

unfoldable pub register_kb : KnowledgeBase → Retriever → Retriever
register_kb kb r = record r { kbs = put kb.id kb r.kbs }

unfoldable pub append_chunks : List Chunk → List (String × List Chunk) → List (String × List Chunk)
append_chunks [] d = d
append_chunks (c ∷ cs) d = append_chunks cs (append_to c.knowledge_base_id c d)

unfoldable pub add_chunks : List Chunk → Retriever → Retriever
unfolding append_chunks
add_chunks cs r = record r { chunks = append_chunks cs r.chunks }

abbrev pub or_no_chunks : Option (List Chunk) → List Chunk
or_no_chunks none = []
or_no_chunks (some cs) = cs

abbrev pub shown : List Chunk → Items
shown [] = nil
shown (c ∷ cs) =
    cons
      (obj (
        field "id" (text c.id)
          (field "content" (text c.content) (field "metadata" (obj c.metadata) end))))
      (shown cs)

unfoldable pub retrieve : (String → String → Bool) → Retriever → String → String → ℕ → ToolResult
unfolding is_allowed
retrieve matches r kb_id query top_k =
    if not (is_allowed matches r.scope kb_id)
    then fail ErrorCategory.rag_error
        (str_append "knowledge base '" (str_append kb_id "' not in scope"))
    else if is_none (lookup kb_id r.kbs)
    then fail ErrorCategory.rag_error
        (str_append "knowledge base '" (str_append kb_id "' not found"))
    else ok (
        obj (
          field "knowledge_base_id" (text kb_id) (
            field "query" (text query) (
              field "chunks" (arr (shown (take top_k (or_no_chunks (lookup kb_id r.chunks)))))
                end))))
