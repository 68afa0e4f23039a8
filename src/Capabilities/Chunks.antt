-- ===== src/Capabilities/Chunks.antt =====
-- `chunk_text` of app/capabilities/embeddings.py, on the list of the characters of a text and sizes
-- that are not negative.
pub mod Rejoin
use fastapi_langgraph_templa.Common.{
  ℕ, zero, suc, ◌+◌, ◌-◌, min, List, [], ◌∷◌, Option, none, some, leb, ltb, if◌then◌else◌, length,
}
use mathlib.Core.Option
use fastapi_langgraph_templa.Common.Slices.{slice}

-- The `while` loop; `none` means that the fuel ran out. The subtraction stops at 0, as the code's
-- own test makes it.
unfoldable pub chunk_loop {ℓ} : {A : Type ℓ} → ℕ → ℕ → ℕ → List A → ℕ → Option (List (List A))
chunk_loop zero chunk_size overlap text start = none
chunk_loop (suc fuel) chunk_size overlap text start =
    let stop = min (start + chunk_size) (length text) in
    let chunk = slice start stop text in
    let rest = chunk_loop fuel chunk_size overlap text (stop - overlap) in
    if ltb start (length text)
    then if leb (length text) stop
      then some (chunk ∷ [])
      else if leb (length text) (stop - overlap)
      then some (chunk ∷ [])
      else Option.map (λ chunks. chunk ∷ chunks) rest
    else some []

unfoldable pub chunk_text {ℓ} : {A : Type ℓ} → ℕ → ℕ → ℕ → List A → Option (List (List A))
unfolding chunk_loop
chunk_text fuel chunk_size overlap [] = some []
chunk_text fuel chunk_size overlap (c ∷ text) = chunk_loop fuel chunk_size overlap (c ∷ text) 0
