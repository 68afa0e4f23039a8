-- ===== src/Capabilities/Chunks/Rejoin.antt =====
-- When `chunk_text` ends, and what its chunks are.
use fastapi_langgraph_templa.Common.{
  ℕ, zero, suc, ◌+◌, ◌-◌, ◌≤◌, ◌<◌, min, ◌≡◌, refl, ap, sym, List, [], ◌∷◌, ◌++◌, none, some, true,
  false, arith, leb, length, take, drop, All, Bool-cases, inl, inr, lt→ltb, leb→le,
}
use fastapi_langgraph_templa.Common.Slices.{
  take-drop_append, drop-drop, length-drop, length-take, length-take_le, take-take, take_all,
}
use fastapi_langgraph_templa.Capabilities.Chunks.{chunk_loop, chunk_text}

-- the text of the chunks: each but the last gives all but its end, which the next one repeats
unfoldable pub rejoin {ℓ} : {A : Type ℓ} → ℕ → List (List A) → List A
rejoin overlap [] = []
rejoin overlap (c ∷ []) = c
rejoin overlap (c ∷ d ∷ ds) = take (length c - overlap) c ++ rejoin overlap (d ∷ ds)

leb_small : (a b : ℕ) → b < a → leb a b ≡ false
leb_small a b h = ground arith

module _ {ℓ} {A : Type ℓ} (chunk_size overlap : ℕ) (text : List A) where
  -- the loop from a position has cut the rest of the text
  record Cuts (fuel start : ℕ) : Type ℓ where
    pub first : List A
    pub others : List (List A)
    pub result : chunk_loop fuel chunk_size overlap text start ≡ some (first ∷ others)
    pub whole : rejoin overlap (first ∷ others) ≡ drop start text
    pub short : All (λ c. length c ≤ chunk_size) (first ∷ others)

  stops_at_end :
      (start : ℕ)
      → length text ≤ start + chunk_size
      → min (start + chunk_size) (length text) ≡ length text
  stops_at_end start h = omega arith

  stops_before :
      (start : ℕ)
      → start + chunk_size < length text
      → min (start + chunk_size) (length text) ≡ start + chunk_size
  stops_before start h = omega arith

  leb-true : (a b : ℕ) → a ≤ b → leb a b ≡ true
  leb-true a b h = ground arith

  last_chunk :
      (fuel start : ℕ)
      → start < length text
      → length text ≤ start + chunk_size
      → Cuts (suc fuel) start
  unfolding chunk_loop rejoin
  last_chunk fuel start inside h =
      let all_left =
        take_all (length text - start) (drop start text) (omega (arith, length-drop start text)) in
      record {
        first = drop start text;
        others = [];
        result =
            rw
              (
                stops_at_end start h,
                lt→ltb start (length text) inside,
                leb-true (length text) (length text) (omega arith),
              )
              (ap (λ c. some (c ∷ [])) all_left);
        whole = refl;
        short = (omega (arith, length-drop start text), tt);
      }

  -- a chunk without its end, and the text from there on
  glue :
      (start n k : ℕ)
      → n ≤ length (drop start text)
      → start + (n - overlap) ≡ k
      → take (length (take n (drop start text)) - overlap) (take n (drop start text)) ++ drop k text
        ≡ drop start text
  glue start n k h e =
      rw
        (
          length-take n (drop start text) h,
          take-take (n - overlap) n (drop start text) (omega arith),
          sym e,
          sym (drop-drop start (n - overlap) text),
        )
        (take-drop_append (n - overlap) (drop start text))

  module _ (shorter : overlap < chunk_size) where
    more_chunks :
        (fuel start : ℕ)
        → start + chunk_size < length text
        → Cuts fuel (start + chunk_size - overlap)
        → Cuts (suc fuel) start
    unfolding chunk_loop rejoin
    more_chunks fuel start inside rest = record {
      first = take (start + chunk_size - start) (drop start text);
      others = rest.first ∷ rest.others;
      result =
          rw
            (
              stops_before start inside,
              lt→ltb start (length text) (omega arith),
              leb_small (length text) (start + chunk_size) inside,
              leb_small (length text) (start + chunk_size - overlap) (omega arith),
              rest.result,
            )
            refl;
      whole = rw rest.whole (
          glue start (start + chunk_size - start) (start + chunk_size - overlap)
            (omega (arith, length-drop start text)) (omega arith));
      short = (
        omega (arith, length-take_le (start + chunk_size - start) (drop start text)),
        rest.short,
      );
    }

    loop-Cuts :
        (fuel start : ℕ) → start < length text → length text ≤ start + fuel → Cuts fuel start
    loop-Cuts zero start inside h = absurd (omega arith)
    loop-Cuts (suc fuel) start inside h =
        elim (Bool-cases (leb (length text) (start + chunk_size))) [
          | inl ends ↦ last_chunk fuel start inside (leb→le (length text) (start + chunk_size) ends)
          | inr goes ↦
              let before : start + chunk_size < length text = ground arith in
              more_chunks fuel start before
                (loop-Cuts fuel (start + chunk_size - overlap) (omega arith) (omega arith))
        ]

-- With an overlap shorter than the chunks, `chunk_text` ends on every text, after no more rounds
-- than the text has characters; no chunk is longer than the size; and the chunks, each without the
-- overlap that the next one repeats, join to the text.
pub chunk_text-rejoin {ℓ} :
    {A : Type ℓ} (chunk_size overlap : ℕ) (text : List A)
    → overlap < chunk_size
    → (chunks : List (List A)) × (chunk_text (length text) chunk_size overlap text ≡ some chunks)
      × (rejoin overlap chunks ≡ text)
      × All (λ c. length c ≤ chunk_size) chunks
unfolding chunk_text rejoin
chunk_text-rejoin chunk_size overlap [] h = ([], refl, refl, tt)
chunk_text-rejoin chunk_size overlap (c ∷ text) h =
    let cut =
      loop-Cuts chunk_size overlap (c ∷ text) h (length (c ∷ text)) 0 (omega arith) (omega arith) in
    (cut.first ∷ cut.others, cut.result, cut.whole, cut.short)

back_to_start :
    (chunk_size overlap n : ℕ) → chunk_size ≤ overlap → min (0 + chunk_size) n - overlap ≡ 0
back_to_start chunk_size overlap n h = omega arith

stuck_at_start {ℓ} :
    {A : Type ℓ} (fuel chunk_size overlap : ℕ) (text : List A)
    → chunk_size ≤ overlap
    → chunk_size < length text
    → chunk_loop fuel chunk_size overlap text 0 ≡ none
unfolding chunk_loop
stuck_at_start zero chunk_size overlap text h g = refl
stuck_at_start (suc fuel) chunk_size overlap text h g =
    rw
      (
        lt→ltb 0 (length text) (omega arith),
        leb_small (length text) (min (0 + chunk_size) (length text)) (omega arith),
        leb_small (length text) (min (0 + chunk_size) (length text) - overlap) (omega arith),
        back_to_start chunk_size overlap (length text) h,
        stuck_at_start fuel chunk_size overlap text h g,
      )
      refl

-- With an overlap that is not shorter than the chunks, `chunk_text` never ends on a text that is
-- longer than one chunk: no number of rounds is enough.
pub chunk_text-stuck {ℓ} :
    {A : Type ℓ} (fuel chunk_size overlap : ℕ) (text : List A)
    → chunk_size ≤ overlap
    → chunk_size < length text
    → chunk_text fuel chunk_size overlap text ≡ none
unfolding chunk_text
chunk_text-stuck fuel chunk_size overlap [] h g = absurd (omega arith)
chunk_text-stuck fuel chunk_size overlap (c ∷ text) h g =
    stuck_at_start fuel chunk_size overlap (c ∷ text) h g
