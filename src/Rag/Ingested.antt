-- ===== src/Rag/Ingested.antt =====
-- What the ingestion of a document stores.
use fastapi_langgraph_templa.Common.{
  ℕ, suc, ◌<◌, String, ◌≡◌, refl, ap, sym, ◌∙◌, subst, List, [], ◌∷◌, ◌++◌, map, some, length,
  length-map, All,
}
use Prim.Native.Char.{Char}
use fastapi_langgraph_templa.Common.Chars.{chars, of_chars, chars-of_chars}
use fastapi_langgraph_templa.Json.{Fields}
use fastapi_langgraph_templa.Capabilities.Chunks.Rejoin.{rejoin, chunk_text-rejoin}
use fastapi_langgraph_templa.ModelsGateway.Completion.{or_default}
use fastapi_langgraph_templa.ModelsGateway.Embedding.{EmbeddingRequest, EmbeddingAnswer, embed}
use fastapi_langgraph_templa.ModelsGateway.Embedding.Ordered.{Embeds, compute_embeddings-map}
use fastapi_langgraph_templa.Rag.{
  KnowledgeBaseRow, DocumentRow, ChunkRow, RagDb, NewDocument, Ingestion, ingested, base_by_id,
  chunk_rows, texts_of, ingest_into, ingest_pieces, ingest_embedded, store_document,
  ingest_document,
}

module _ {V : Type 0} where
  -- the rows of a document: their texts, and what each row says
  abbrev pub contents : List (ChunkRow V) → List (List Char)
  contents = map (λ (c : ChunkRow V). chars c.content)

  abbrev pub IsChunkOf : String → String → (String → V) → ChunkRow V → Type 0
  IsChunkOf document_id kb_id vector c =
      (c.document_id ≡ document_id)
      × (c.knowledge_base_id ≡ kb_id)
      × (c.embedding ≡ vector c.content)

  pub record HasRows (ids : ℕ → String) (document_id kb_id : String) (metadata : Fields)
      (vector : String → V) (pieces : List (List Char)) : Type 0 where
    pub rows : List (ChunkRow V)
    pub result :
        chunk_rows ids document_id kb_id metadata
          (map of_chars pieces)
          (map vector (map of_chars pieces))
        ≡ some rows
    pub texts : contents rows ≡ pieces
    pub each : All (IsChunkOf document_id kb_id vector) rows

  chunk_rows-HasRows :
      (ids : ℕ → String) (document_id kb_id : String) (metadata : Fields) (vector : String → V)
      (pieces : List (List Char))
      → HasRows ids document_id kb_id metadata vector pieces
  unfolding chunk_rows
  chunk_rows-HasRows ids document_id kb_id metadata vector [] = record {
    rows = [];
    result = refl;
    texts = refl;
    each = tt;
  }
  chunk_rows-HasRows ids document_id kb_id metadata vector (p ∷ ps) =
      let rest = chunk_rows-HasRows (λ n. ids (suc n)) document_id kb_id metadata vector ps in
      record {
        rows =
            record {
              id = ids 0;
              document_id = document_id;
              knowledge_base_id = kb_id;
              content = of_chars p;
              embedding = vector (of_chars p);
              metadata = metadata;
            }
            ∷ rest.rows;
        result = rw rest.result refl;
        texts = rw (chars-of_chars p, rest.texts) refl;
        each = ((refl, refl, refl), rest.each);
      }

  -- The document is stored as completed with the count of its chunks; these are new rows of the
  -- document and its knowledge base, whose texts join to the content when each is cut where the
  -- next one repeats it, and each has the vector of its own text.
  pub record Ingests (db : RagDb V) (result : RagDb V × Ingestion) (id : String)
      (kb : KnowledgeBaseRow) (content : String) (vector : String → V) : Type 0 where
    pub document : DocumentRow
    pub rows : List (ChunkRow V)
    pub outcome : result.1 ≡ ingested document
    pub documents : result.0.documents ≡ db.documents ++ document ∷ []
    pub chunks : result.0.chunks ≡ db.chunks ++ rows
    pub knowledge_bases : result.0.knowledge_bases ≡ db.knowledge_bases
    pub identity : document.id ≡ id
    pub status : document.status ≡ "completed"
    pub count : document.chunk_count ≡ length rows
    pub whole : rejoin kb.chunk_overlap (contents rows) ≡ chars content
    pub each : All (IsChunkOf id kb.id vector) rows

-- If the provider embeds each text, in whatever order it gives the rows, then ingesting a document
-- into a knowledge base whose overlap is shorter than its chunks stores the document, with chunks
-- that join to its content and have their own vectors.
pub ingest_document-Ingests :
    {V : Type 0} (default_model : String) (provider : EmbeddingRequest → EmbeddingAnswer V)
    (vector : String → String → V) (ids : ℕ → String) (id kb_id : String) (kb : KnowledgeBaseRow)
    (new : NewDocument) (db : RagDb V)
    → Embeds provider vector
    → base_by_id kb_id db ≡ some kb
    → kb.chunk_overlap < kb.chunk_size
    → Ingests db
        (ingest_document (embed default_model provider) ids id kb_id new db)
        id
        kb
        new.content
        (vector (or_default kb.embedding_model default_model))
unfolding ingest_document
ingest_document-Ingests {V} default_model provider vector ids id kb_id kb new db embeds found
      small =
    let (pieces, cut, whole, _) =
      chunk_text-rejoin kb.chunk_size kb.chunk_overlap (chars new.content) small in
    let model = or_default kb.embedding_model default_model in
    let vs =
      compute_embeddings-map default_model provider vector (map of_chars pieces) kb.embedding_model
        1536 embeds in
    let r = chunk_rows-HasRows ids id kb.id new.metadata (vector model) pieces in
    let document : DocumentRow = record {
      id = id;
      knowledge_base_id = kb.id;
      filename = new.filename;
      content_type = new.content_type;
      status = "completed";
      chunk_count = length (map of_chars pieces);
    } in
    let stored : (ingest_document (embed default_model provider) ids id kb_id new db)
        ≡ store_document document (some r.rows) db =
      ap (λ o. ingest_into (embed default_model provider) ids id new o db) found
      ∙ ap (λ o. ingest_pieces (embed default_model provider) ids id kb new (texts_of o) db) cut
      ∙ ap
          (λ e.
            ingest_embedded (embed default_model provider) ids id kb new (map of_chars pieces) e db)
          vs
      ∙ ap (λ o. store_document document o db) r.result in
    subst (λ result. Ingests db result id kb new.content (vector model)) (sym stored)
      (record {
        document = document;
        rows = r.rows;
        outcome = refl;
        documents = refl;
        chunks = refl;
        knowledge_bases = refl;
        identity = refl;
        status = refl;
        count =
            length-map of_chars pieces
            ∙ ap length (sym r.texts)
            ∙ length-map (λ (c : ChunkRow V). chars c.content) r.rows;
        whole = ap (rejoin kb.chunk_overlap) r.texts ∙ whole;
        each = r.each;
      })
