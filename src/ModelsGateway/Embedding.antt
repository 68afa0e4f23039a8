-- ===== src/ModelsGateway/Embedding.antt =====
-- `LiteLLMModelGateway.embed` of app/models_gateway.py and `compute_embeddings` of
-- app/capabilities/embeddings.py. `V` stands for a list of floats, `provider` for LiteLLM's
-- `aembedding`, awaited.
pub mod Ordered
use fastapi_langgraph_templa.Common.{
  ℕ, String, List, [], ◌∷◌, map, Option, none, some, Bool, true, false, ◌==◌, leb, if◌then◌else◌,
  is_none, length,
}
use fastapi_langgraph_templa.State.{NormalizedError}
use fastapi_langgraph_templa.Json.{Fields, end}
use fastapi_langgraph_templa.ModelsGateway.{normalize_model_error}
use fastapi_langgraph_templa.ModelsGateway.Completion.{or_default, usage_of}

pub record EmbeddingRequest : Type 0 where
  pub model : String
  pub inputs : List String
  pub dimensions : Option ℕ

pub record EmbeddingResult (V : Type 0) : Type 0 where
  pub embeddings : List V
  pub model : Option String
  pub usage : Fields
  pub error : Option NormalizedError

-- an element of `response.data`
pub record Row (V : Type 0) : Type 0 where
  pub index : ℕ
  pub embedding : V

pub data EmbeddingAnswer (V : Type 0) : Type 0 where
  responded : List (Row V) → Option String → Option Fields → EmbeddingAnswer V
  raised : String → Option ℕ → String → EmbeddingAnswer V

module _ {V : Type 0} where
  unfoldable pub insert_row : Row V → List (Row V) → List (Row V)
  insert_row r [] = r ∷ []
  insert_row r (s ∷ ss) =
      let rest = insert_row r ss in if leb r.index s.index then r ∷ s ∷ ss else s ∷ rest

  -- `sorted(response.data, key=lambda row: row["index"])`
  unfoldable pub sort_rows : List (Row V) → List (Row V)
  sort_rows [] = []
  sort_rows (r ∷ rs) = insert_row r (sort_rows rs)

  abbrev pub embedding_result : String → EmbeddingAnswer V → EmbeddingResult V
  embedding_result model (responded rows served usage) = record {
    embeddings = map (λ (r : Row V). r.embedding) (sort_rows rows);
    model = served;
    usage = usage_of usage;
    error = none;
  }
  embedding_result model (raised name status message) = record {
    embeddings = [];
    model = none;
    usage = end;
    error = some (normalize_model_error name status message);
  }

  -- `request.model or self._default_model`
  unfoldable pub embed :
      String → (EmbeddingRequest → EmbeddingAnswer V) → EmbeddingRequest → EmbeddingResult V
  unfolding sort_rows insert_row
  embed default_model provider request =
      let model = or_default request.model default_model in
      embedding_result model (provider (record request { model = model }))

-- the vectors, or the text of a RuntimeError
pub data Embedded (V : Type 0) : Type 0 where
  vectors : List V → Embedded V
  embedding_failed : String → Embedded V

module _ {V : Type 0} (gateway_embed : EmbeddingRequest → EmbeddingResult V) where
  abbrev pub checked_count : ℕ → List V → Embedded V
  checked_count n vs =
      if length vs == n
      then vectors vs
      else embedding_failed "embedding provider returned an unexpected row count"

  abbrev pub embedded : ℕ → EmbeddingResult V → Option NormalizedError → Embedded V
  embedded n r (some e) = embedding_failed e.message
  embedded n r none = checked_count n r.embeddings

  unfoldable pub compute_embeddings : List String → String → ℕ → Embedded V
  compute_embeddings [] model dimensions = vectors []
  compute_embeddings (t ∷ ts) model dimensions =
      let r =
        gateway_embed (record { model = model; inputs = t ∷ ts; dimensions = some dimensions }) in
      embedded (length (t ∷ ts)) r r.error
