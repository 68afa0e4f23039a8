-- ===== src/Events/Sequence.antt =====
-- The numbering of the durable event log, and its terminal events.
use fastapi_langgraph_templa.Common.{
  ℕ, suc, ◌≤◌, ◌<◌, ◌+◌, ◌≡◌, refl, ap, sym, subst, ◌∙◌, String, str_eq, eq_refl, List, [], ◌∷◌,
  ◌++◌, Option, none, some, Bool, true, false, ◌&&◌, ◌||◌, arith, any, Bool-cases, inl, inr,
  if◌then◌else◌,
}
use mathlib.Core.List.{append-nil, append_assoc}
use fastapi_langgraph_templa.State.{EventType}
use fastapi_langgraph_templa.Schema.{EventRow}
use fastapi_langgraph_templa.Events.Redact.{redact}
use fastapi_langgraph_templa.Events.{
  RuntimeEvent, of_run, max_seq, bigger, successor, next_seq, ends_run, clashes, insert_event,
  event_row, insert_all, log_many,
}

-- the rows are numbered k, k + 1, k + 2, ...
abbrev pub NumberedFrom : ℕ → List EventRow → Type 0
NumberedFrom k [] = Unit
NumberedFrom k (e ∷ es) = (e.seq ≡ k) × NumberedFrom (suc k) es

-- The events of the run stand in the table in the order 0, 1, 2, ... without a gap.
abbrev pub IsNumbered : String → List EventRow → Type 0
IsNumbered run_id rows = NumberedFrom 0 (of_run run_id rows)

-- the types of which a run has one event at most
abbrev pub is_last : EventType → Bool
is_last EventType.run_completed = true
is_last EventType.run_failed = true
is_last EventType.run_cancelled = true
is_last _ = false

abbrev pub is_end : String → EventRow → Bool
is_end run_id e = str_eq e.run_id run_id && is_last e.type

abbrev pub has_end : String → List EventRow → Bool
has_end run_id rows = any (is_end run_id) rows

-- all numbers of the run are smaller
abbrev pub AllBelow : String → ℕ → List EventRow → Type 0
AllBelow run_id k [] = Unit
AllBelow run_id k (e ∷ es) = (str_eq e.run_id run_id ≡ true → e.seq < k) × AllBelow run_id k es

pub AllBelow-mono :
    (run_id : String) (k n : ℕ) (rows : List EventRow)
    → k ≤ n
    → AllBelow run_id k rows
    → AllBelow run_id n rows
AllBelow-mono run_id k n [] h b = tt
AllBelow-mono run_id k n (e ∷ es) h b =
    (λ own. let less = b.0 own in omega arith, AllBelow-mono run_id k n es h b.1)

AllBelow-append :
    (run_id : String) (k : ℕ) (rows : List EventRow) (e : EventRow)
    → AllBelow run_id k rows
    → e.seq < k
    → AllBelow run_id k (rows ++ e ∷ [])
AllBelow-append run_id k [] e b h = (λ own. h, tt)
AllBelow-append run_id k (x ∷ xs) e b h = (b.0, AllBelow-append run_id k xs e b.1 h)

bigger_le :
    (m : ℕ) (o : Option ℕ)
    → (m < successor (some (bigger m o))) × (successor o ≤ successor (some (bigger m o)))
bigger_le m none = (omega arith, omega arith)
bigger_le m (some n) = (omega arith, omega arith)

max_seq_own :
    (run_id : String) (e : EventRow) (es : List EventRow)
    → str_eq e.run_id run_id ≡ true
    → max_seq run_id (e ∷ es) ≡ some (bigger e.seq (max_seq run_id es))
unfolding max_seq
max_seq_own run_id e es own = rw own refl

max_seq_other :
    (run_id : String) (e : EventRow) (es : List EventRow)
    → str_eq e.run_id run_id ≡ false
    → max_seq run_id (e ∷ es) ≡ max_seq run_id es
unfolding max_seq
max_seq_other run_id e es other = rw other refl

max_seq-AllBelow :
    (run_id : String) (rows : List EventRow)
    → AllBelow run_id (successor (max_seq run_id rows)) rows
max_seq-AllBelow run_id [] = tt
max_seq-AllBelow run_id (e ∷ es) = elim (Bool-cases (str_eq e.run_id run_id)) [
  | inl own ↦
      let le = bigger_le e.seq (max_seq run_id es) in
      subst (λ o. AllBelow run_id (successor o) (e ∷ es)) (sym (max_seq_own run_id e es own))
        (λ _. le.0, AllBelow-mono run_id _ _ es le.1 (max_seq-AllBelow run_id es))
  | inr other ↦
      subst (λ o. AllBelow run_id (successor o) (e ∷ es)) (sym (max_seq_other run_id e es other))
        (λ own. cc, max_seq-AllBelow run_id es)
]

-- the next number is greater than all numbers of the run
pub next_seq-AllBelow :
    (run_id : String) (rows : List EventRow) → AllBelow run_id (next_seq run_id rows) rows
unfolding next_seq
next_seq-AllBelow run_id rows = max_seq-AllBelow run_id rows

-- an insert under a new number conflicts only with a terminal event
clashes_lem :
    (row : EventRow) (rows : List EventRow)
    → AllBelow row.run_id row.seq rows
    → any (clashes row) rows ≡ (has_end row.run_id rows && ends_run row.type)
clashes_lem row [] b = refl
clashes_lem row (e ∷ es) b = elim (Bool-cases (str_eq e.run_id row.run_id)) [
  | inl own ↦ let less = b.0 own in ground (arith, clashes_lem row es b.1)
  | inr other ↦ rw other (clashes_lem row es b.1)
]

has_end-append :
    (run_id : String) (rows : List EventRow) (e : EventRow)
    → has_end run_id (rows ++ e ∷ []) ≡ (has_end run_id rows || is_end run_id e)
has_end-append run_id [] e = ground arith
has_end-append run_id (x ∷ xs) e = ground (arith, has_end-append run_id xs e)

-- the row of an event
abbrev pub stored_row : String → String → ℕ → RuntimeEvent → EventRow
stored_row id run_id seq event = record {
  id = id;
  seq = seq;
  run_id = run_id;
  type = event.type;
  node = event.node;
  payload = redact event.payload;
}

-- what `append_many` is to store: the events in their order, numbered from `next + offset`, less
-- those that are terminal when the run has a terminal event already
unfoldable pub stored : (ℕ → String) → String → ℕ → ℕ → Bool → List RuntimeEvent → List EventRow
stored ids run_id next offset closed [] = []
stored ids run_id next offset closed (event ∷ rest) =
    let without = stored ids run_id next (offset + 1) closed rest in
    let more = stored ids run_id next (offset + 1) (closed || is_last event.type) rest in
    if closed && is_last event.type
    then without
    else stored_row (ids offset) run_id (next + offset) event ∷ more

-- the insert of the next event, whose number is new
insert_event-clash :
    (row : EventRow) (rows : List EventRow)
    → AllBelow row.run_id row.seq rows
    → (has_end row.run_id rows && ends_run row.type) ≡ true
    → insert_event row rows ≡ rows
unfolding insert_event
insert_event-clash row rows b h = rw (clashes_lem row rows b, h) refl

insert_event-fresh :
    (row : EventRow) (rows : List EventRow)
    → AllBelow row.run_id row.seq rows
    → (has_end row.run_id rows && ends_run row.type) ≡ false
    → insert_event row rows ≡ rows ++ row ∷ []
unfolding insert_event
insert_event-fresh row rows b h = rw (clashes_lem row rows b, h) refl

next_offset : (next offset : ℕ) → next + offset < next + (offset + 1)
next_offset next offset = omega arith

-- the rows after one more event, for the events after it
pub appended :
    (run_id : String) (next offset : ℕ) (closed : Bool) (row : EventRow) (rows : List EventRow)
    → row.run_id ≡ run_id
    → row.seq ≡ next + offset
    → AllBelow run_id (next + offset) rows
    → has_end run_id rows ≡ closed
    → AllBelow run_id (next + (offset + 1)) (rows ++ row ∷ [])
      × (has_end run_id (rows ++ row ∷ []) ≡ (closed || ends_run row.type))
appended run_id next offset closed row rows own seq b h =
    let is : str_eq row.run_id run_id ≡ true = rw own (eq_refl run_id) in
    (
      AllBelow-append run_id (next + (offset + 1)) rows row
          (AllBelow-mono run_id (next + offset) (next + (offset + 1)) rows (omega arith) b)
          (omega arith),
      has_end-append run_id rows row ∙ rw (h, is) refl,
    )

insert_all-append :
    (ids : ℕ → String) (run_id : String) (next offset : ℕ) (closed : Bool)
    (events : List RuntimeEvent) (rows : List EventRow)
    → AllBelow run_id (next + offset) rows
    → has_end run_id rows ≡ closed
    → insert_all ids run_id next offset events rows
      ≡ rows ++ stored ids run_id next offset closed events
unfolding insert_all stored
insert_all-append ids run_id next offset closed [] rows b h = rw append-nil
insert_all-append ids run_id next offset closed (event ∷ rest) rows b h =
    let e = event_row (ids offset) run_id (next + offset) event in
    elim (Bool-cases (closed && ends_run event.type)) [
      | inl clash ↦
          ap (insert_all ids run_id next (offset + 1) rest)
            (insert_event-clash e rows b (rw h clash))
          ∙ insert_all-append ids run_id next (offset + 1) closed rest rows
              (AllBelow-mono run_id (next + offset) (next + (offset + 1)) rows (omega arith) b) h
          ∙ rw clash refl
      | inr fresh ↦
          let (b', h') = appended run_id next offset closed e rows refl refl b h in
          ap (insert_all ids run_id next (offset + 1) rest)
            (insert_event-fresh e rows b (rw h fresh))
          ∙ insert_all-append ids run_id next (offset + 1) (closed || ends_run event.type) rest
              (rows ++ e ∷ []) b' h'
          ∙ append_assoc rows (e ∷ [])
              (stored ids run_id next (offset + 1) (closed || ends_run event.type) rest)
          ∙ rw fresh refl
    ]

pub log_many_lem :
    (ids : ℕ → String) (run_id : String) (events : List RuntimeEvent) (rows : List EventRow)
    → log_many ids run_id events rows
      ≡ rows ++ stored ids run_id (next_seq run_id rows) 0 (has_end run_id rows) events
unfolding log_many stored
log_many_lem ids run_id [] rows = rw append-nil
log_many_lem ids run_id (event ∷ rest) rows =
    insert_all-append ids run_id (next_seq run_id rows) 0 (has_end run_id rows) (event ∷ rest) rows
      (AllBelow-mono run_id (next_seq run_id rows) (next_seq run_id rows + 0) rows (omega arith)
        (next_seq-AllBelow run_id rows))
      refl

-- an event that is not terminal is stored
pub log_many-open :
    (ids : ℕ → String) (run_id : String) (event : RuntimeEvent) (rows : List EventRow)
    → is_last event.type ≡ false
    → log_many ids run_id (event ∷ []) rows
      ≡ rows ++ stored_row (ids 0) run_id (next_seq run_id rows + 0) event ∷ []
unfolding stored
log_many-open ids run_id event rows open_ =
    log_many_lem ids run_id (event ∷ []) rows ∙ elim (Bool-cases (has_end run_id rows)) [
      | inl has ↦ rw (has, open_) refl
      | inr none_ ↦ rw none_ refl
    ]
