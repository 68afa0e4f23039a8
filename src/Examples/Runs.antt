-- ===== src/Examples/Runs.antt =====
-- The theorems on Runs, their executions and their events at concrete rows.
use fastapi_langgraph_templa.Common.{
  ℕ, ◌≡◌, refl, ◌⊎◌, String, str_eq, List, Bool-cases, inl, inr, arith, [], ◌∷◌, ◌++◌, none, some,
  true, false,
}
use fastapi_langgraph_templa.State.{
  queued, running, paused, completed, failed, cancelled, ErrorCategory, EventType,
}
use fastapi_langgraph_templa.Json.{end}
use fastapi_langgraph_templa.Schema.{Db}
use fastapi_langgraph_templa.Events.{append_many}
use fastapi_langgraph_templa.Events.Sequence.{stored, IsNumbered}
use fastapi_langgraph_templa.Events.Gapless.{append_many-IsNumbered}
use fastapi_langgraph_templa.Events.Appended.{IsNext, append_many_lem}
use fastapi_langgraph_templa.Worker.{claimed, claim_next, enqueue, set_run_status}
use fastapi_langgraph_templa.Worker.RunOnce.{Outcome, start_handler}
use fastapi_langgraph_templa.RunManager.{
  Manager, invoke, start_with, Program, raised, finished, execute_planned, execute_job, job_outcome,
  gave,
}
use fastapi_langgraph_templa.RunManager.Failure.{Exc, model_call_error}
use fastapi_langgraph_templa.RunManager.Attempt.{
  started, worker_never_resumes, Transient, persisted, execution_of, failure_consistent,
}
use fastapi_langgraph_templa.Lifecycle.{here, next, sets_status, claims, enqueues, appends}
use fastapi_langgraph_templa.Lifecycle.Runs.{HasStatus, terminal_final}
use fastapi_langgraph_templa.Worker.Leases.{AllLeased}
use fastapi_langgraph_templa.Lifecycle.Jobs.{IsSound, Steps-IsSound, first_end_stays}
use fastapi_langgraph_templa.Events.Ordered.{IsOrdered, ends_of}
use fastapi_langgraph_templa.Schema.{EventRow}
use fastapi_langgraph_templa.Events.{event_row, RuntimeEvent}
use fastapi_langgraph_templa.Examples.{ann, db_with, run_in, job1, event_of}

-- a late execution sets a cancelled Run to completed, in vain
abbrev late : Db
late = set_run_status "r1" completed none 9 (db_with cancelled [])

terminal_final_example : HasStatus "r1" cancelled late.runs
terminal_final_example =
    terminal_final "r1" cancelled {s = db_with cancelled []} {t = late} refl
      (next here (sets_status "r1" completed none 9 (db_with cancelled [])))
      (run_in cancelled, refl, refl)

-- a job is queued and claimed, and an event is stored
abbrev busy : Db
busy =
    append_many (λ _. "e") "r1" (event_of EventType.run_started ∷ [])
      (claim_next ann 10 (λ _. false) (enqueue "j1" "r1" end 5 (db_with queued [])).0).0

Steps-IsSound_example : IsSound busy
unfolding AllLeased
Steps-IsSound_example =
    Steps-IsSound
      (next
        (next (next here (enqueues "j1" "r1" end 5 (db_with queued [])))
          (claims ann 10 (λ _. false) (enqueue "j1" "r1" end 5 (db_with queued [])).0))
        (appends (λ _. "e") "r1" (event_of EventType.run_started ∷ [])
          (claim_next ann 10 (λ _. false) (enqueue "j1" "r1" end 5 (db_with queued [])).0).0))
      (record { leased = tt; logged = λ _. (tt, omega arith) })

abbrev echo : Program
echo start m db = (m, db, finished (some "done"))

abbrev manager : Manager
manager = record { load = λ _. none; program = λ _. echo; use_postgres_checkpointer = true }

worker_never_resumes_example :
    start_handler
      (λ n. n)
      (execute_job manager (λ _. "e") 9)
      (claimed ann 0 job1)
      (db_with paused (claimed ann 0 job1 ∷ []))
    ≡ (let (db', attempted) =
          execute_planned manager
            (λ _. "e")
            9
            "r1"
            "hello"
            (started 1 (run_in paused))
            (start_with (invoke "hello"))
            (set_run_status "r1" running none 1 (db_with paused (claimed ann 0 job1 ∷ []))) in
        (db', job_outcome attempted))
worker_never_resumes_example =
    worker_never_resumes manager (λ _. "e") (λ n. n) 9 (claimed ann 0 job1) (run_in paused)
      (db_with paused (claimed ann 0 job1 ∷ [])) refl refl refl

abbrev slow : Exc
slow = model_call_error ErrorCategory.timeout true "timeout"

failure_consistent_example :
    (Transient slow
      × (persisted (raised slow) ≡ queued)
      × ((m : String) × (job_outcome (gave (execution_of "r1" [] (raised slow)))
            ≡ Outcome.raised m)))
    ⊎ ((persisted (raised slow) ≡ cancelled)
        × (job_outcome (gave (execution_of "r1" [] (raised slow))) ≡ Outcome.returned cancelled))
    ⊎ (¬ Transient slow
        × (persisted (raised slow) ≡ failed)
        × ((m : String) × (job_outcome (gave (execution_of "r1" [] (raised slow)))
              ≡ Outcome.not_retryable m)))
failure_consistent_example = failure_consistent slow "r1" []

-- a Run that was cancelled, and an execution that ends well after that
abbrev cancelled_row : EventRow
cancelled_row = event_row "e" "r1" 0 (event_of EventType.run_cancelled)

abbrev cancelled_log : Db
cancelled_log = record (db_with cancelled []) { events = cancelled_row ∷ [] }

abbrev two_ends : List RuntimeEvent
two_ends = event_of EventType.node_completed ∷ event_of EventType.run_completed ∷ []

cancelled_log-IsOrdered : (r : String) → IsOrdered r cancelled_log.events
cancelled_log-IsOrdered r = elim (Bool-cases (str_eq "r1" r)) [
  | inl own ↦ rw own ((omega arith, tt), omega arith)
  | inr other ↦ rw other (tt, omega arith)
]

first_end_stays_example :
    ends_of "r1" (append_many (λ _. "e") "r1" two_ends cancelled_log).events ≡ cancelled_row ∷ []
unfolding AllLeased
first_end_stays_example =
    first_end_stays "r1" cancelled_row (next here (appends (λ _. "e") "r1" two_ends cancelled_log))
      (record { leased = tt; logged = cancelled_log-IsOrdered }) refl

append_many_lem_example :
    (next : ℕ) × IsNext "r1" next (cancelled_row ∷ [])
    × ((append_many (λ _. "e") "r1" two_ends cancelled_log).events
        ≡ cancelled_row ∷ [] ++ stored (λ _. "e") "r1" next 0 true two_ends)
append_many_lem_example = append_many_lem (λ _. "e") "r1" two_ends cancelled_log

-- the terminal event is left out
two_ends-stored :
    stored (λ _. "e") "r1" 1 0 true two_ends
    ≡ event_row "e" "r1" 1 (event_of EventType.node_completed) ∷ []
unfolding stored
two_ends-stored = refl

cancelled_log-IsNumbered : (r : String) → IsNumbered r cancelled_log.events
cancelled_log-IsNumbered r = elim (Bool-cases (str_eq "r1" r)) [
  | inl own ↦ rw own (refl, tt)
  | inr other ↦ rw other tt
]

append_many-IsNumbered_example :
    IsNumbered "r1"
      (append_many (λ _. "e") "r1" (event_of EventType.run_completed ∷ []) cancelled_log).events
append_many-IsNumbered_example =
    append_many-IsNumbered (λ _. "e") "r1" (event_of EventType.run_completed) cancelled_log
      cancelled_log-IsNumbered "r1"
