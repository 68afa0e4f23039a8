-- ===== src/Events/Appended.antt =====
-- What `append_many` adds to the log.
use fastapi_langgraph_templa.Common.{
  ℕ, suc, ◌+◌, String, str_eq, eq_iff, ◌≡◌, refl, ap, List, [], ◌∷◌, ◌++◌, Option, none, some,
  arith, Bool-cases, Option-cases, inl, inr, ◌⊎◌,
}
use mathlib.Core.List.{Memᴰ}
use fastapi_langgraph_templa.Schema.{EventRow, Db}
use fastapi_langgraph_templa.Events.{
  RuntimeEvent, bigger, successor, max_seq, next_seq, append_many,
}
use fastapi_langgraph_templa.Events.Sequence.{
  AllBelow, next_seq-AllBelow, has_end, stored, log_many_lem,
}

-- the number after the greatest of the run, or 0 if it has none
abbrev pub IsNext : String → ℕ → List EventRow → Type 0
IsNext run_id k rows =
    AllBelow run_id k rows
    × ((k ≡ 0) ⊎ ((e : EventRow) × Memᴰ e rows × (e.run_id ≡ run_id) × (suc e.seq ≡ k)))

Greatest : String → ℕ → List EventRow → Type 0
Greatest run_id m rows = (e : EventRow) × Memᴰ e rows × (e.run_id ≡ run_id) × (e.seq ≡ m)

bigger_cases : (n : ℕ) (o : Option ℕ) (m : ℕ) → bigger n o ≡ m → (n ≡ m) ⊎ (o ≡ some m)
bigger_cases n none m h = inl h
bigger_cases n (some k) m h = ground arith

max_seq-Greatest :
    (run_id : String) (rows : List EventRow) (m : ℕ)
    → max_seq run_id rows ≡ some m
    → Greatest run_id m rows
unfolding max_seq Greatest
max_seq-Greatest run_id [] m h = cc
max_seq-Greatest run_id (e ∷ es) m h = elim (Bool-cases (str_eq e.run_id run_id)) [
  | inr other ↦
      let (x, there, own, is) = max_seq-Greatest run_id es m (rw other at h) in
      (x, Memᴰ.tail there, own, is)
  | inl own ↦
      let is : bigger e.seq (max_seq run_id es) ≡ m = cc (rw own at h) in
      elim (bigger_cases e.seq (max_seq run_id es) m is) [
        | inl here_ ↦ (e, Memᴰ.head refl, (eq_iff e.run_id run_id).0 own, here_)
        | inr later ↦
            let (x, there, own2, at) = max_seq-Greatest run_id es m later in
            (x, Memᴰ.tail there, own2, at)
      ]
]

pub next_seq-IsNext :
    (run_id : String) (rows : List EventRow) → IsNext run_id (next_seq run_id rows) rows
unfolding next_seq Greatest
next_seq-IsNext run_id rows = (
  next_seq-AllBelow run_id rows,
  elim (Option-cases (max_seq run_id rows)) [
    | inl empty ↦ inl (ap successor empty)
    | inr (m, greatest) ↦
        let (e, there, own, at) = max_seq-Greatest run_id rows m greatest in
        let same : successor (max_seq run_id rows) ≡ m + 1 = ap successor greatest in
        inr (e, there, own, omega arith)
  ],
)

-- `append_many` adds the given events at the end of the log, in their order and redacted, numbered on
-- from the number after the greatest of the run, one number for each event of the batch. Only a
-- terminal event is left out, and its number with it, when the run has a terminal event in the log
-- already or the batch has one before it.
pub append_many_lem :
    (ids : ℕ → String) (run_id : String) (events : List RuntimeEvent) (db : Db)
    → (next : ℕ) × IsNext run_id next db.events
      × ((append_many ids run_id events db).events
          ≡ db.events ++ stored ids run_id next 0 (has_end run_id db.events) events)
unfolding append_many
append_many_lem ids run_id events db = (
  next_seq run_id db.events,
  next_seq-IsNext run_id db.events,
  log_many_lem ids run_id events db.events,
)
