-- ===== src/Rag/Api/Ends.antt =====
-- Through the API every ingestion ends.
use fastapi_langgraph_templa.Common.{
  ℕ, ◌<◌, String, str_eq, ◌≡◌, refl, ap, sym, ◌∙◌, subst, List, [], ◌∷◌, ◌++◌, Option, none, some,
  true, inl, inr, Bool-cases, arith, leb, any, All, is_some,
}
use fastapi_langgraph_templa.Common.Chars.{chars}
use fastapi_langgraph_templa.Common.Table.{find}
use fastapi_langgraph_templa.Capabilities.Chunks.Rejoin.{chunk_text-rejoin}
use fastapi_langgraph_templa.ModelsGateway.Embedding.{
  EmbeddingRequest, EmbeddingResult, Embedded, vectors, embedding_failed,
}
use fastapi_langgraph_templa.Rag.{
  KnowledgeBaseRow, DocumentRow, ChunkRow, RagDb, NewKnowledgeBase, NewDocument, base_by_id,
  create_knowledge_base, texts_of, ingest_embedded, ingest_pieces, ingest_into, ingest_document,
  store_document,
}
use fastapi_langgraph_templa.Rag.Api.{
  fields_valid, ingestion_response, post_knowledge_base, post_document,
}

abbrev Fits : KnowledgeBaseRow → Type 0
Fits k = k.chunk_overlap < k.chunk_size

All-snoc :
    (ks : List KnowledgeBaseRow) (k : KnowledgeBaseRow)
    → All Fits ks
    → Fits k
    → All Fits (ks ++ k ∷ [])
All-snoc [] k h f = (f, tt)
All-snoc (x ∷ ks) k h f = (h.0, All-snoc ks k h.1 f)

Fits-found :
    (kb_id : String) (ks : List KnowledgeBaseRow) (kb : KnowledgeBaseRow)
    → All Fits ks
    → find (λ (k : KnowledgeBaseRow). str_eq k.id kb_id) ks ≡ some kb
    → Fits kb
Fits-found kb_id [] kb h e = cc
Fits-found kb_id (k ∷ ks) kb h e = elim (Bool-cases (str_eq k.id kb_id)) [
  | inl hit ↦
      let same : some k ≡ some kb = rw hit at e in
      let same_row : k ≡ kb = cc same in subst Fits same_row h.0
  | inr miss ↦ Fits-found kb_id ks kb h.1 (rw miss at e)
]

module _ {V : Type 0} where
  abbrev pub empty : RagDb V
  empty = record { knowledge_bases = []; documents = []; chunks = [] }

  -- the databases that requests to the API lead to
  pub data Reached : RagDb V → Type 1 where
    nothing : Reached empty
    posts_base :
        (id : String) (r : NewKnowledgeBase) (db : RagDb V)
        → Reached db
        → Reached (post_knowledge_base id r db).0
    posts_document :
        (embed : EmbeddingRequest → EmbeddingResult V) (ids : ℕ → String) (id kb_id : String)
        (new : NewDocument) (db : RagDb V)
        → Reached db
        → Reached (post_document embed ids id kb_id new db).0

  post_knowledge_base-Fits :
      (id : String) (r : NewKnowledgeBase) (db : RagDb V)
      → All Fits db.knowledge_bases
      → All Fits (post_knowledge_base id r db).0.knowledge_bases
  unfolding post_knowledge_base create_knowledge_base
  post_knowledge_base-Fits id r db h = elim (Bool-cases (fields_valid r)) [
    | inr bad ↦ rw bad h
    | inl good ↦ elim (Bool-cases (leb r.chunk_size r.chunk_overlap)) [
      | inl long ↦ rw (good, long) h
      | inr short ↦
          elim (Bool-cases
            (any (λ (k : KnowledgeBaseRow). str_eq k.name r.name) db.knowledge_bases)) [
              | inl taken ↦ rw (good, short, taken) h
              | inr free ↦ rw (good, short, free) (All-snoc db.knowledge_bases _ h (ground arith))
            ]
    ]
  ]

  stored_bases :
      (document : DocumentRow) (o : Option (List (ChunkRow V))) (db : RagDb V)
      → (store_document document o db).0.knowledge_bases ≡ db.knowledge_bases
  stored_bases document none db = refl
  stored_bases document (some rows) db = refl

  module _ (embed : EmbeddingRequest → EmbeddingResult V) (ids : ℕ → String) (id kb_id : String)
      (new : NewDocument) (db : RagDb V) where
    embedded_bases :
        (kb : KnowledgeBaseRow) (pieces : List String) (e : Embedded V)
        → (ingest_embedded embed ids id kb new pieces e db).0.knowledge_bases ≡ db.knowledge_bases
    embedded_bases kb pieces (embedding_failed message) = refl
    embedded_bases kb pieces (vectors vs) = stored_bases _ _ db

    pieces_bases :
        (kb : KnowledgeBaseRow) (o : Option (List String))
        → (ingest_pieces embed ids id kb new o db).0.knowledge_bases ≡ db.knowledge_bases
    pieces_bases kb none = refl
    pieces_bases kb (some pieces) = embedded_bases kb pieces _

    into_bases :
        (o : Option KnowledgeBaseRow)
        → (ingest_into embed ids id new o db).0.knowledge_bases ≡ db.knowledge_bases
    into_bases none = refl
    into_bases (some kb) = pieces_bases kb _

    post_document_bases :
        (post_document embed ids id kb_id new db).0.knowledge_bases ≡ db.knowledge_bases
    unfolding post_document ingest_document
    post_document_bases = into_bases (base_by_id kb_id db)

    stored_returns :
        (document : DocumentRow) (o : Option (List (ChunkRow V)))
        → is_some (ingestion_response (store_document document o db).1) ≡ true
    stored_returns document none = refl
    stored_returns document (some rows) = refl

    embedded_returns :
        (kb : KnowledgeBaseRow) (pieces : List String) (e : Embedded V)
        → is_some (ingestion_response (ingest_embedded embed ids id kb new pieces e db).1) ≡ true
    embedded_returns kb pieces (embedding_failed message) = refl
    embedded_returns kb pieces (vectors vs) = stored_returns _ _

    into_returns :
        (o : Option KnowledgeBaseRow)
        → ((kb : KnowledgeBaseRow) → o ≡ some kb → Fits kb)
        → is_some (ingestion_response (ingest_into embed ids id new o db).1) ≡ true
    into_returns none fits = refl
    into_returns (some kb) fits =
        let (pieces, cut, _, _) =
          chunk_text-rejoin kb.chunk_size kb.chunk_overlap (chars new.content) (fits kb refl) in
        ap (λ o. is_some (ingestion_response (ingest_pieces embed ids id kb new (texts_of o) db).1))
          cut
        ∙ embedded_returns kb _ _

  Reached-Fits : (db : RagDb V) → Reached db → All Fits db.knowledge_bases
  Reached-Fits db nothing = tt
  Reached-Fits db (posts_base id r before reached) =
      post_knowledge_base-Fits id r before (Reached-Fits before reached)
  Reached-Fits db (posts_document embed ids id kb_id new before reached) =
      subst (All Fits) (sym (post_document_bases embed ids id kb_id new before))
        (Reached-Fits before reached)

  -- On every database that requests to the API lead to, an upload of a document gets a response: the
  -- chunking ends, whatever the text and the knowledge base are.
  pub post_document_returns :
      (embed : EmbeddingRequest → EmbeddingResult V) (ids : ℕ → String) (id kb_id : String)
      (new : NewDocument) (db : RagDb V)
      → Reached db
      → is_some (post_document embed ids id kb_id new db).1 ≡ true
  unfolding post_document ingest_document
  post_document_returns embed ids id kb_id new db reached =
      into_returns embed ids id kb_id new db (base_by_id kb_id db)
        (λ kb e. Fits-found kb_id db.knowledge_bases kb (Reached-Fits db reached) e)
