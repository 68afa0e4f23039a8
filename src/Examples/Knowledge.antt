-- ===== src/Examples/Knowledge.antt =====
-- The theorems on the model gateway and the knowledge bases at concrete texts.
use fastapi_langgraph_templa.Common.{
  ℕ, List, ◌≡◌, ◌↔◌, refl, String, [], ◌∷◌, map, none, some, Option, Bool, true, arith, is_some,
}
use mathlib.Core.List.Permᴰ
use fastapi_langgraph_templa.Json.{null, end}
use fastapi_langgraph_templa.ModelsGateway.Completion.{
  ModelRequest, Call, Answer, responded, success, complete,
}
use fastapi_langgraph_templa.ModelsGateway.Completion.Shaped.{Answered, complete_iff}
use fastapi_langgraph_templa.ModelsGateway.Embedding.{
  EmbeddingRequest, EmbeddingResult, EmbeddingAnswer, embed, vectors, compute_embeddings,
}
use fastapi_langgraph_templa.ModelsGateway.Embedding
use fastapi_langgraph_templa.ModelsGateway.Embedding.Ordered.{Embeds, numbered}
use fastapi_langgraph_templa.Rag.{
  KnowledgeBaseRow, ChunkRow, RagDb, NewDocument, NewKnowledgeBase, ingest_document, nearest,
}
use fastapi_langgraph_templa.Rag.Ingested.{Ingests, ingest_document-Ingests}
use fastapi_langgraph_templa.Rag.Nearest.{IsNearest, nearest-IsNearest}
use fastapi_langgraph_templa.Rag.Api.{post_knowledge_base, post_document}
use fastapi_langgraph_templa.Rag.Api.Ends.{empty, nothing, posts_base, post_document_returns}

-- a provider that answers every call with one choice
abbrev provider : Call → Answer
provider call =
    responded
      (record { model = some "m1"; hidden_params = null; choices = some "yes" ∷ []; usage = none })

abbrev to_bool : String → Option Bool
to_bool _ = some true

abbrev question : ModelRequest
question = record {
  model = "";
  messages = record { role = "user"; content = some "is it so?" } ∷ [];
  structured = true;
  call_id = some "c1";
  metadata = end;
}

complete_iff_example :
    (success (complete "m1" provider to_bool "bad" question) ≡ true)
    ↔ Answered "m1" provider to_bool "bad" question (complete "m1" provider to_bool "bad" question)
complete_iff_example = complete_iff "m1" provider to_bool "bad" question

-- a text is embedded as itself, and the rows come in the order of the texts
abbrev itself : EmbeddingRequest → EmbeddingAnswer String
itself request = Embedding.responded (numbered 0 (map (λ t. t) request.inputs)) none none

embeds : Embeds itself (λ model t. t)
embeds request = (
  numbered 0 (map (λ t. t) request.inputs),
  none,
  none,
  refl,
  Permᴰ.refl (numbered 0 (map (λ t. t) request.inputs)),
)

abbrev base : KnowledgeBaseRow
base = record {
  id = "kb1";
  name = "notes";
  description = "";
  embedding_model = "e";
  chunk_size = 4;
  chunk_overlap = 1;
}

abbrev knowledge : RagDb String
knowledge = record { knowledge_bases = base ∷ []; documents = []; chunks = [] }

abbrev note : NewDocument
note = record {
  filename = "a.txt";
  content = "hello world";
  content_type = "text/plain";
  metadata = end;
}

ingest_document-Ingests_example :
    Ingests knowledge
      (ingest_document (embed "e" itself) (λ _. "c") "d1" "kb1" note knowledge)
      "d1"
      base
      "hello world"
      (λ t. t)
ingest_document-Ingests_example =
    ingest_document-Ingests "e" itself (λ model t. t) (λ _. "c") "d1" "kb1" base note knowledge
      embeds refl (omega arith)

abbrev chunk : String → ℕ → ChunkRow ℕ
chunk id position = record {
  id = id;
  document_id = "d1";
  knowledge_base_id = "kb1";
  content = id;
  embedding = position;
  metadata = end;
}

abbrev points : RagDb ℕ
points = record {
  knowledge_bases = base ∷ [];
  documents = [];
  chunks = chunk "far" 9 ∷ chunk "near" 3 ∷ [];
}

-- a plan that visits every row
abbrev every : ℕ → List (ChunkRow ℕ) → List (ChunkRow ℕ)
every q rows = rows

nearest-IsNearest_example :
    IsNearest (λ a b. a) 0 every "kb1" 1 points (nearest (λ a b. a) every "kb1" 0 1 points)
nearest-IsNearest_example = nearest-IsNearest (λ a b. a) 0 every "kb1" 1 points

abbrev notes : NewKnowledgeBase
notes = record {
  name = "notes";
  description = "";
  embedding_model = "e";
  chunk_size = 64;
  chunk_overlap = 8;
}

post_document_returns_example :
    is_some
      (post_document
        (embed "e" itself)
        (λ _. "c")
        "d1"
        "kb1"
        note
        (post_knowledge_base "kb1" notes empty).0).1
    ≡ true
post_document_returns_example =
    post_document_returns (embed "e" itself) (λ _. "c") "d1" "kb1" note
      (post_knowledge_base "kb1" notes empty).0 (posts_base "kb1" notes empty nothing)
