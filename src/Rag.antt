-- ===== src/Rag.antt =====
-- app/services/rag_repository.py over the knowledge tables of app/models/db.py. `V` stands for the
-- pgvector column, `distance` for its cosine distance (to the resolution of its numbers), `scan` for
-- the rows that PostgreSQL visits for a query vector (all of the table, or those that the HNSW index
-- of alembic/versions/001_add_phase5_8_tables.py gives, which may miss some), `embed` for the gateway, `matches` for fnmatch. Spans, columns that nothing reads (`created_at`) and the
-- session are left out; a uuid is an argument.
pub mod Nearest
pub mod Ingested
pub mod Api
use fastapi_langgraph_templa.Common.{
  ℕ, zero, suc, String, str_eq, str_append, List, [], ◌∷◌, ◌++◌, map, Option, none, some, Bool,
  true, false, not, leb, min, max, if◌then◌else◌, filter, take, length, any,
}
use Prim.Native.Char.{Char}
use fastapi_langgraph_templa.Common.Table.{find}
use fastapi_langgraph_templa.Common.Chars.{chars, of_chars}
use fastapi_langgraph_templa.State.{ErrorCategory}
use fastapi_langgraph_templa.Json.{Json, Items, Fields, text, arr, obj, nil, cons, end, field}
use fastapi_langgraph_templa.Tools.{ToolResult, ok, fail}
use fastapi_langgraph_templa.Capabilities.Retriever.{RagScope, is_allowed}
use fastapi_langgraph_templa.Capabilities.Chunks.{chunk_text}
use fastapi_langgraph_templa.ModelsGateway.Embedding.{
  EmbeddingRequest, EmbeddingResult, Embedded, vectors, embedding_failed, compute_embeddings,
}

pub record KnowledgeBaseRow : Type 0 where
  pub id : String
  pub name : String
  pub description : String
  pub embedding_model : String
  pub chunk_size : ℕ
  pub chunk_overlap : ℕ

pub record DocumentRow : Type 0 where
  pub id : String
  pub knowledge_base_id : String
  pub filename : String
  pub content_type : String
  pub status : String
  pub chunk_count : ℕ

pub record ChunkRow (V : Type 0) : Type 0 where
  pub id : String
  pub document_id : String
  pub knowledge_base_id : String
  pub content : String
  pub embedding : V
  pub metadata : Fields

pub record RagDb (V : Type 0) : Type 0 where
  pub knowledge_bases : List KnowledgeBaseRow
  pub documents : List DocumentRow
  pub chunks : List (ChunkRow V)

-- the arguments of `create_knowledge_base`
pub record NewKnowledgeBase : Type 0 where
  pub name : String
  pub description : String
  pub embedding_model : String
  pub chunk_size : ℕ
  pub chunk_overlap : ℕ

-- the arguments of `ingest_document`
pub record NewDocument : Type 0 where
  pub filename : String
  pub content : String
  pub content_type : String
  pub metadata : Fields

-- `created`, or the IntegrityError of the unique column
pub data Creation : Type 0 where
  created : KnowledgeBaseRow → Creation
  name_taken : Creation

-- a document, a ValueError or a RuntimeError with its text, or a loop without an end
pub data Ingestion : Type 0 where
  ingested : DocumentRow → Ingestion
  value_error runtime_error : String → Ingestion
  diverges : Ingestion

module _ {V : Type 0} where
  abbrev pub base_by_id : String → RagDb V → Option KnowledgeBaseRow
  base_by_id kb_id db = find (λ k. str_eq k.id kb_id) db.knowledge_bases

  unfoldable pub create_knowledge_base : String → NewKnowledgeBase → RagDb V → RagDb V × Creation
  create_knowledge_base id new db =
      let row : KnowledgeBaseRow = record {
        id = id;
        name = new.name;
        description = new.description;
        embedding_model = new.embedding_model;
        chunk_size = new.chunk_size;
        chunk_overlap = new.chunk_overlap;
      } in
      if any (λ (k : KnowledgeBaseRow). str_eq k.name new.name) db.knowledge_bases
      then (db, name_taken)
      else (record db { knowledge_bases = db.knowledge_bases ++ row ∷ [] }, created row)

  -- `zip(pieces, vectors, strict=True)`; none is its ValueError
  unfoldable pub chunk_rows :
      (ℕ → String) → String → String → Fields → List String → List V → Option (List (ChunkRow V))
  chunk_rows ids document_id kb_id metadata [] [] = some []
  chunk_rows ids document_id kb_id metadata (p ∷ ps) (v ∷ vs) =
      let row : ChunkRow V = record {
        id = ids 0;
        document_id = document_id;
        knowledge_base_id = kb_id;
        content = p;
        embedding = v;
        metadata = metadata;
      } in
      elim (chunk_rows (λ n. ids (suc n)) document_id kb_id metadata ps vs) [
        | none ↦ none
        | some rows ↦ some (row ∷ rows)
      ]
  chunk_rows ids document_id kb_id metadata _ _ = none

  abbrev pub store_document :
      DocumentRow → Option (List (ChunkRow V)) → RagDb V → RagDb V × Ingestion
  store_document document none db = (db, value_error "zip() arguments have different lengths")
  store_document document (some rows) db = (
    record db { documents = db.documents ++ document ∷ []; chunks = db.chunks ++ rows },
    ingested document,
  )

abbrev pub texts_of : Option (List (List Char)) → Option (List String)
texts_of none = none
texts_of (some pieces) = some (map of_chars pieces)

-- as many rounds as the content has characters
abbrev pub pieces_of : KnowledgeBaseRow → String → Option (List String)
pieces_of kb content =
    texts_of (chunk_text (length (chars content)) kb.chunk_size kb.chunk_overlap (chars content))

module _ {V : Type 0} (embed : EmbeddingRequest → EmbeddingResult V) where
  abbrev pub ingest_embedded :
      (ℕ → String)
      → String
      → KnowledgeBaseRow
      → NewDocument
      → List String
      → Embedded V
      → RagDb V
      → RagDb V × Ingestion
  ingest_embedded ids id kb new pieces (embedding_failed message) db = (db, runtime_error message)
  ingest_embedded ids id kb new pieces (vectors vs) db =
      store_document
        (record {
          id = id;
          knowledge_base_id = kb.id;
          filename = new.filename;
          content_type = new.content_type;
          status = "completed";
          chunk_count = length pieces;
        })
        (chunk_rows ids id kb.id new.metadata pieces vs) db

  abbrev pub ingest_pieces :
      (ℕ → String)
      → String
      → KnowledgeBaseRow
      → NewDocument
      → Option (List String)
      → RagDb V
      → RagDb V × Ingestion
  ingest_pieces ids id kb new none db = (db, diverges)
  ingest_pieces ids id kb new (some pieces) db =
      ingest_embedded ids id kb new pieces (compute_embeddings embed pieces kb.embedding_model 1536)
        db

  abbrev pub ingest_into :
      (ℕ → String) → String → NewDocument → Option KnowledgeBaseRow → RagDb V → RagDb V × Ingestion
  ingest_into ids id new none db = (db, value_error "knowledge base not found")
  ingest_into ids id new (some kb) db = ingest_pieces ids id kb new (pieces_of kb new.content) db

  unfoldable pub ingest_document :
      (ℕ → String) → String → String → NewDocument → RagDb V → RagDb V × Ingestion
  unfolding chunk_rows
  ingest_document ids id kb_id new db = ingest_into ids id new (base_by_id kb_id db) db

module _ {V : Type 0} (distance : V → V → ℕ) where
  -- ORDER BY distance
  unfoldable pub insert_by_distance : V → ChunkRow V → List (ChunkRow V) → List (ChunkRow V)
  insert_by_distance q c [] = c ∷ []
  insert_by_distance q c (d ∷ ds) =
      let rest = insert_by_distance q c ds in
      if leb (distance c.embedding q) (distance d.embedding q) then c ∷ d ∷ ds else d ∷ rest

  unfoldable pub by_distance : V → List (ChunkRow V) → List (ChunkRow V)
  by_distance q [] = []
  by_distance q (c ∷ cs) = insert_by_distance q c (by_distance q cs)

  -- SELECT ... WHERE ... ORDER BY ... LIMIT max(1, min(top_k, 50)), on the rows that `scan` visits
  unfoldable pub nearest :
      (V → List (ChunkRow V) → List (ChunkRow V)) → String → V → ℕ → RagDb V → List (ChunkRow V)
  unfolding by_distance insert_by_distance
  nearest scan kb_id q top_k db =
      take (max 1 (min top_k 50))
        (by_distance q (filter (λ c. str_eq c.knowledge_base_id kb_id) (scan q db.chunks)))

-- a result, or a RuntimeError (or IndexError)
pub data Retrieval : Type 0 where
  retrieved : ToolResult → Retrieval
  retrieval_failed : String → Retrieval

module _ {V : Type 0} (distance : V → V → ℕ) (scan : V → List (ChunkRow V) → List (ChunkRow V))
    (score : ℕ → Json) (embed : EmbeddingRequest → EmbeddingResult V)
    (matches : String → String → Bool) where
  abbrev pub shown_chunks : V → List (ChunkRow V) → Items
  shown_chunks q [] = nil
  shown_chunks q (c ∷ cs) =
      cons
        (obj (
          field "id" (text c.id) (
            field "document_id" (text c.document_id) (
              field "content" (text c.content) (
                field "metadata" (obj c.metadata)
                  (field "score" (score (distance c.embedding q)) end))))))
        (shown_chunks q cs)

  abbrev pub retrieve_embedded : String → String → ℕ → Embedded V → RagDb V → Retrieval
  retrieve_embedded kb_id query top_k (embedding_failed message) db = retrieval_failed message
  retrieve_embedded kb_id query top_k (vectors []) db = retrieval_failed "list index out of range"
  retrieve_embedded kb_id query top_k (vectors (q ∷ _)) db = retrieved (
      ok (
        obj (
          field "knowledge_base_id" (text kb_id) (
            field "query" (text query) (
              field "chunks" (arr (shown_chunks q (nearest distance scan kb_id q top_k db)))
                end)))))

  abbrev pub retrieve_in : String → String → ℕ → Option KnowledgeBaseRow → RagDb V → Retrieval
  retrieve_in kb_id query top_k none db = retrieved (
      fail ErrorCategory.rag_error (str_append "knowledge base '" (str_append kb_id "' not found")))
  retrieve_in kb_id query top_k (some kb) db =
      retrieve_embedded kb_id query top_k
        (compute_embeddings embed (query ∷ []) kb.embedding_model 1536) db

  unfoldable pub retrieve : RagScope → String → String → ℕ → RagDb V → Retrieval
  retrieve scope kb_id query top_k db =
      if not (is_allowed matches scope kb_id)
      then retrieved (
          fail ErrorCategory.rag_error
            (str_append "knowledge base '" (str_append kb_id "' not in scope")))
      else retrieve_in kb_id query top_k (base_by_id kb_id db) db
