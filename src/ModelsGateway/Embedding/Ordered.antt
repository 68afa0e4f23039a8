-- ===== src/ModelsGateway/Embedding/Ordered.antt =====
-- The order of the embeddings.
use fastapi_langgraph_templa.Common.{
  ℕ, suc, ◌<◌, String, ◌≡◌, ◌≢◌, refl, ap, sym, ◌∙◌, subst, List, [], ◌∷◌, map, Option, some, arith,
  length-map, All,
}
use mathlib.Core.List.{Permᴰ}
use fastapi_langgraph_templa.Json.{Fields}
use fastapi_langgraph_templa.ModelsGateway.Completion.{or_default}
use fastapi_langgraph_templa.ModelsGateway.Embedding.{
  EmbeddingRequest, EmbeddingAnswer, responded, Row, insert_row, sort_rows, embed, vectors,
  compute_embeddings,
}

module _ {V : Type 0} where
  -- the rows of inputs that are numbered from n on
  abbrev pub numbered : ℕ → List V → List (Row V)
  numbered n [] = []
  numbered n (v ∷ vs) = record { index = n; embedding = v } ∷ numbered (suc n) vs

  abbrev DistinctIndex : List (Row V) → Type 0
  DistinctIndex [] = Unit
  DistinctIndex (x ∷ xs) = All (λ (y : Row V). y.index ≢ x.index) xs × DistinctIndex xs

  insert_comm :
      (a b : Row V) (l : List (Row V))
      → a.index ≢ b.index
      → insert_row a (insert_row b l) ≡ insert_row b (insert_row a l)
  unfolding insert_row
  insert_comm a b [] h = ground arith
  insert_comm a b (x ∷ l) h = ground (arith, insert_comm a b l h)

  All-perm : (P : Row V → Type 0) (xs ys : List (Row V)) → Permᴰ xs ys → All P xs → All P ys
  All-perm P xs ys Permᴰ.nil h = tt
  All-perm P xs ys (Permᴰ.cons {l₁ = l} {l₂ = m} e p) h = (subst P e h.0, All-perm P l m p h.1)
  All-perm P xs ys (Permᴰ.swap e f) h = (subst P f h.1.0, (subst P e h.0, h.1.1))
  All-perm P xs ys (Permᴰ.trans {l₂ = m} p q) h = All-perm P m ys q (All-perm P xs m p h)

  numbered-above :
      (n k : ℕ) (vs : List V) → n < k → All (λ (y : Row V). y.index ≢ n) (numbered k vs)
  numbered-above n k [] h = tt
  numbered-above n k (v ∷ vs) h = (λ e. omega arith, numbered-above n (suc k) vs (omega arith))

  numbered-DistinctIndex : (n : ℕ) (vs : List V) → DistinctIndex (numbered n vs)
  numbered-DistinctIndex n [] = tt
  numbered-DistinctIndex n (v ∷ vs) =
      (numbered-above n (suc n) vs (omega arith), numbered-DistinctIndex (suc n) vs)

  abbrev Apart : Row V → Row V → Type 0
  Apart x y = y.index ≢ x.index

  DistinctIndex-perm : (xs ys : List (Row V)) → Permᴰ xs ys → DistinctIndex xs → DistinctIndex ys
  DistinctIndex-perm xs ys Permᴰ.nil h = tt
  DistinctIndex-perm xs ys (Permᴰ.cons {b = b} {l₁ = l} {l₂ = m} e p) h = (
    All-perm (Apart b) l m p (subst (λ (z : Row V). All (Apart z) l) e h.0),
    DistinctIndex-perm l m p h.1,
  )
  DistinctIndex-perm xs ys (Permᴰ.swap {a = a} {b = b} {a' = a'} {b' = b'} {l = l} e f) h =
      let apart : a.index ≢ b.index = λ q. h.0.0 (sym q) in
      (
        (
          subst (λ (z : Row V). Apart z b') f (subst (λ (z : Row V). Apart b z) e apart),
          subst (λ (z : Row V). All (Apart z) l) f h.1.0,
        ),
        (subst (λ (z : Row V). All (Apart z) l) e h.0.1, h.1.1),
      )
  DistinctIndex-perm xs ys (Permᴰ.trans {l₂ = m} p q) h =
      DistinctIndex-perm m ys q (DistinctIndex-perm xs m p h)

  sort_rows-perm :
      (xs ys : List (Row V)) → Permᴰ xs ys → DistinctIndex xs → sort_rows xs ≡ sort_rows ys
  unfolding sort_rows
  sort_rows-perm xs ys Permᴰ.nil h = refl
  sort_rows-perm xs ys (Permᴰ.cons {a = a} {b = b} {l₁ = l} {l₂ = m} e p) h =
      ap (insert_row a) (sort_rows-perm l m p h.1) ∙ ap (λ z. insert_row z (sort_rows m)) e
  sort_rows-perm xs ys (Permᴰ.swap {a = a} {b = b} {a' = a'} {b' = b'} {l = l} e f) h =
      insert_comm a b (sort_rows l) (λ q. h.0.0 (sym q))
      ∙ ap (λ z. insert_row z (insert_row a (sort_rows l))) f
      ∙ ap (λ z. insert_row a' (insert_row z (sort_rows l))) e
  sort_rows-perm xs ys (Permᴰ.trans {l₂ = m} p q) h =
      sort_rows-perm xs m p h ∙ sort_rows-perm m ys q (DistinctIndex-perm xs m p h)

  insert_first :
      (n : ℕ) (v : V) (vs : List V)
      → insert_row (record { index = n; embedding = v }) (numbered (suc n) vs)
        ≡ record { index = n; embedding = v } ∷ numbered (suc n) vs
  unfolding insert_row
  insert_first n v [] = refl
  insert_first n v (w ∷ vs) = ground arith

  sort_rows-numbered : (n : ℕ) (vs : List V) → sort_rows (numbered n vs) ≡ numbered n vs
  unfolding sort_rows
  sort_rows-numbered n [] = refl
  sort_rows-numbered n (v ∷ vs) =
      ap (insert_row (record { index = n; embedding = v })) (sort_rows-numbered (suc n) vs)
      ∙ insert_first n v vs

  embeddings-numbered :
      (n : ℕ) (vs : List V) → map (λ (r : Row V). r.embedding) (numbered n vs) ≡ vs
  embeddings-numbered n [] = refl
  embeddings-numbered n (v ∷ vs) = ap (λ t. v ∷ t) (embeddings-numbered (suc n) vs)

  pub sorted_embeddings :
      (rows : List (Row V)) (vs : List V)
      → Permᴰ (numbered 0 vs) rows
      → map (λ (r : Row V). r.embedding) (sort_rows rows) ≡ vs
  sorted_embeddings rows vs p =
      ap (map (λ (r : Row V). r.embedding)) (
        sym (sort_rows-perm (numbered 0 vs) rows p (numbered-DistinctIndex 0 vs))
        ∙ sort_rows-numbered 0 vs)
      ∙ embeddings-numbered 0 vs

  -- The provider embeds each text as `vector` says, and may give the rows in any order.
  abbrev pub Embeds : (EmbeddingRequest → EmbeddingAnswer V) → (String → String → V) → Type 0
  Embeds provider vector =
      (request : EmbeddingRequest)
      → (rows : List (Row V)) × (served : Option String) × (usage : Option Fields) × (provider
            request
          ≡ responded rows served usage)
        × Permᴰ (numbered 0 (map (vector request.model) request.inputs)) rows

-- If the provider embeds each text of a call, in whatever order it gives the rows, then
-- `compute_embeddings` returns the vectors of the texts in the order of the texts, one for each.
pub compute_embeddings-map :
    {V : Type 0} (default_model : String) (provider : EmbeddingRequest → EmbeddingAnswer V)
    (vector : String → String → V) (texts : List String) (model : String) (dimensions : ℕ)
    → Embeds provider vector
    → compute_embeddings (embed default_model provider) texts model dimensions
      ≡ vectors (map (vector (or_default model default_model)) texts)
unfolding compute_embeddings embed
compute_embeddings-map default_model provider vector [] model dimensions h = refl
compute_embeddings-map default_model provider vector (t ∷ ts) model dimensions h =
    let used = or_default model default_model in
    let (rows, served, usage, e, p) =
      h (record { model = used; inputs = t ∷ ts; dimensions = some dimensions }) in
    let ordered = sorted_embeddings rows (map (vector used) (t ∷ ts)) p in
    rw (e, ordered, length-map (vector used) ts) (ground arith)
