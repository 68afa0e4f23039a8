-- ===== src/Events/Emitter.antt =====
-- app/services/events.py: `EventEmitter`, the in-memory events of one execution, and
-- `DurableEventEmitter`, which also starts a task for each event that hands it to the repository. The
-- tasks take the lock in the order of their creation; `run_task` is one of them, which the event loop
-- may run at any time after the emit, and `drain` awaits all that are left. The executions of this
-- library leave all tasks to the drain: what others commit between an emit and the drain stands
-- before the event. Subscribers are left out: the emitter ignores what they return and what they
-- raise.
use fastapi_langgraph_templa.Common.{
  ℕ, suc, ◌+◌, String, ◌≡◌, refl, List, [], ◌∷◌, ◌++◌, Option, none, some, max,
}
use fastapi_langgraph_templa.State.{EventType}
use fastapi_langgraph_templa.Json.{Json}
use fastapi_langgraph_templa.Schema.{Db}
use fastapi_langgraph_templa.Events.{RuntimeEvent, append_many}

pub record Emitter : Type 0 where
  pub events : List RuntimeEvent
  pub next : ℕ  -- `_seq`
  pub tasks : List (String × RuntimeEvent)

abbrev pub new_emitter : Emitter
new_emitter = record { events = []; next = 0; tasks = [] }

unfoldable pub emit : EventType → String → Option String → Json → Emitter → Emitter
emit type run_id node payload m =
    let event : RuntimeEvent = record {
      seq = m.next;
      type = type;
      run_id = run_id;
      node = node;
      payload = payload;
    } in
    record m {
      next = m.next + 1;
      events = m.events ++ event ∷ [];
      tasks = m.tasks ++ (run_id, event) ∷ [];
    }

-- max over the events, -1 (here `none`) without one
unfoldable pub latest_seq : List RuntimeEvent → Option ℕ
latest_seq [] = none
latest_seq (e ∷ es) = some (elim (latest_seq es) [ none ↦ e.seq | some m ↦ max e.seq m ])

unfoldable pub clear : Emitter → Emitter
clear m = record m { events = []; next = 0 }

-- the first task that waits, if there is one; `id` is the uuid of its row
unfoldable pub run_task : String → Emitter → Db → Emitter × Db
run_task id m db = elim m.tasks [
  | [] ↦ (m, db)
  | task ∷ rest ↦ (record m { tasks = rest }, append_many (λ _. id) task.0 (task.1 ∷ []) db)
]

-- `ids` gives the uuid of the n-th task's row
unfoldable pub persist : (ℕ → String) → List (String × RuntimeEvent) → Db → Db
persist ids [] db = db
persist ids ((run_id, event) ∷ rest) db =
    persist (λ n. ids (suc n)) rest (append_many (λ _. ids 0) run_id (event ∷ []) db)

unfoldable pub drain : (ℕ → String) → Emitter → Db → Emitter × Db
unfolding persist
drain ids m db = (record m { tasks = [] }, persist ids m.tasks db)

module _ (ids : ℕ → String) (events : List RuntimeEvent) (next : ℕ) (db : Db) where
  abbrev with_tasks : List (String × RuntimeEvent) → Emitter
  with_tasks tasks = record { events = events; next = next; tasks = tasks }

  -- A task that runs before the drain stores what the drain would have stored first.
  run_task-drain :
      (tasks : List (String × RuntimeEvent))
      → (let (m', db') = run_task (ids 0) (with_tasks tasks) db in drain (λ n. ids (suc n)) m' db')
        ≡ drain ids (with_tasks tasks) db
  unfolding run_task drain
  run_task-drain [] = refl
  run_task-drain (task ∷ rest) = refl
