-- ===== src/Examples/Streams.antt =====
-- The theorems on streams, payloads and chunks at concrete data.
use fastapi_langgraph_templa.Common.{
  ℕ, refl, ◌≡◌, ◌≤◌, List, [], ◌∷◌, none, some, false, All, length, arith,
}
use fastapi_langgraph_templa.Common.Int.{pos}
use fastapi_langgraph_templa.State.{EventType, running}
use fastapi_langgraph_templa.Json.{Json, obj, field, text, end}
use fastapi_langgraph_templa.Schema.{Db}
use fastapi_langgraph_templa.Events.{append_many}
use fastapi_langgraph_templa.Events.Emitter.{Emitter}
use fastapi_langgraph_templa.Events.Sequence.{IsNumbered}
use fastapi_langgraph_templa.Events.Redact.{redact}
use fastapi_langgraph_templa.Events.Redact.Hidden.{IsHidden, redact_lem}
use fastapi_langgraph_templa.Api.Streaming.{Poll, event_generator}
use fastapi_langgraph_templa.Api.Streaming.Contiguous.{IsContiguous, event_generator-IsContiguous}
use fastapi_langgraph_templa.Capabilities.Chunks.{chunk_text}
use fastapi_langgraph_templa.Capabilities.Chunks.Rejoin.{
  rejoin, chunk_text-rejoin, chunk_text-stuck,
}
use fastapi_langgraph_templa.Examples.{db_with, event_of}

abbrev ended : Db
ended =
    append_many (λ _. "e") "r1"
      (event_of EventType.run_started ∷ event_of EventType.run_completed ∷ []) (db_with running [])

abbrev poll : Poll
poll = record { disconnected = false; listed = ended; checked = ended }

ended-IsNumbered : IsNumbered "r1" ended.events
unfolding append_many
ended-IsNumbered = (refl, (refl, tt))

event_generator-IsContiguous_example :
    IsContiguous (pos 0) (event_generator "r1" (pos 0) 0 (poll ∷ poll ∷ []))
event_generator-IsContiguous_example =
    event_generator-IsContiguous "r1" (pos 0) 0 (poll ∷ poll ∷ [])
      (ended-IsNumbered, (ended-IsNumbered, tt))

abbrev login : Json
login = obj (field "Token" (text "abc") (field "user" (text "eve") end))

redact_lem_example : IsHidden (redact login) × (redact (redact login) ≡ redact login)
redact_lem_example = redact_lem login

chunk_text-rejoin_example :
    (chunks : List (List ℕ)) × (chunk_text 5 3 1 (1 ∷ 2 ∷ 3 ∷ 4 ∷ 5 ∷ []) ≡ some chunks)
    × (rejoin 1 chunks ≡ 1 ∷ 2 ∷ 3 ∷ 4 ∷ 5 ∷ [])
    × All (λ c. length c ≤ 3) chunks
chunk_text-rejoin_example = chunk_text-rejoin 3 1 (1 ∷ 2 ∷ 3 ∷ 4 ∷ 5 ∷ []) (omega arith)

chunk_text-stuck_example : chunk_text {A = ℕ} 100 2 2 (1 ∷ 2 ∷ 3 ∷ []) ≡ none
chunk_text-stuck_example = chunk_text-stuck 100 2 2 (1 ∷ 2 ∷ 3 ∷ []) (omega arith) (omega arith)

-- two events emitted in one execution
abbrev two_emitted : Emitter
two_emitted = record {
  events = [];
  next = 2;
  tasks = ("r1", event_of EventType.run_started) ∷ ("r1", event_of EventType.run_completed) ∷ [];
}
