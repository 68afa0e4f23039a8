-- ===== src/Rag/Api.antt =====
-- app/api/rag.py: the endpoints of knowledge bases. The bounds are those of the pydantic fields, a
-- status 422; an exception that no handler catches is a status 500. A request whose ingestion never
-- ends has no response.
pub mod Ends
use fastapi_langgraph_templa.Common.{
  ℕ, String, List, Option, none, some, Bool, true, false, ◌&&◌, not, leb, ltb, if◌then◌else◌,
}
use fastapi_langgraph_templa.State.{NormalizedError}
use fastapi_langgraph_templa.Json.{Json}
use fastapi_langgraph_templa.Tools.{ToolResult}
use fastapi_langgraph_templa.Capabilities.Retriever.{RagScope}
use fastapi_langgraph_templa.ModelsGateway.Embedding.{EmbeddingRequest, EmbeddingResult}
use fastapi_langgraph_templa.Api.Runs.{Response, success, http_error}
use fastapi_langgraph_templa.Rag.{
  KnowledgeBaseRow, ChunkRow, DocumentRow, RagDb, NewKnowledgeBase, NewDocument, Creation, created,
  name_taken, Ingestion, ingested, value_error, runtime_error, diverges, Retrieval, retrieved,
  retrieval_failed, create_knowledge_base, ingest_document, retrieve,
}

-- `KnowledgeBaseCreate`
abbrev pub fields_valid : NewKnowledgeBase → Bool
fields_valid r = leb 64 r.chunk_size && leb r.chunk_size 8192 && leb r.chunk_overlap 2048

abbrev pub creation_response : Creation → Response KnowledgeBaseRow
creation_response (created row) = success row
creation_response name_taken = http_error 500 "IntegrityError"

module _ {V : Type 0} where
  unfoldable pub post_knowledge_base :
      String → NewKnowledgeBase → RagDb V → RagDb V × Response KnowledgeBaseRow
  post_knowledge_base id r db =
      let (db', creation) = create_knowledge_base id r db in
      if not (fields_valid r)
      then (db, http_error 422 "validation error")
      else if leb r.chunk_size r.chunk_overlap
      then (db, http_error 422 "chunk_overlap must be smaller than chunk_size")
      else (db', creation_response creation)

abbrev pub ingestion_response : Ingestion → Option (Response DocumentRow)
ingestion_response (ingested document) = some (success document)
ingestion_response (value_error message) = some (http_error 404 message)
ingestion_response (runtime_error message) = some (http_error 500 message)
ingestion_response diverges = none

module _ {V : Type 0} (embed : EmbeddingRequest → EmbeddingResult V) where
  unfoldable pub post_document :
      (ℕ → String)
      → String
      → String
      → NewDocument
      → RagDb V
      → RagDb V × Option (Response DocumentRow)
  post_document ids id kb_id new db =
      let (db', ingestion) = ingest_document embed ids id kb_id new db in
      (db', ingestion_response ingestion)

abbrev pub error_message : Option NormalizedError → String
error_message none = "RAG failed"
error_message (some e) = e.message

abbrev pub search_response : Retrieval → Response (Option Json)
search_response (retrieval_failed message) = http_error 500 message
search_response (retrieved r) =
    if r.success then success r.data_ else http_error 404 (error_message r.error)

module _ {V : Type 0} (distance : V → V → ℕ) (scan : V → List (ChunkRow V) → List (ChunkRow V))
    (score : ℕ → Json) (embed : EmbeddingRequest → EmbeddingResult V)
    (matches : String → String → Bool) where
  -- `SearchRequest` bounds `top_k`
  unfoldable pub post_search : RagScope → String → String → ℕ → RagDb V → Response (Option Json)
  post_search scope kb_id query top_k db =
      if leb 1 top_k && leb top_k 50
      then search_response (retrieve distance scan score embed matches scope kb_id query top_k db)
      else http_error 422 "validation error"
