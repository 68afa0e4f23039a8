-- ===== src/Events/Gapless.antt =====
-- The log under appends of one event, which is what all callers of `append_many` pass.
use fastapi_langgraph_templa.Common.{
  ℕ, suc, ◌+◌, ◌≡◌, refl, ap, ◌∙◌, String, str_eq, eq_iff, eq_refl, List, [], ◌∷◌, ◌++◌, some, true,
  false, ◌&&◌, arith, length, All, Bool-cases, inl, inr,
}
use mathlib.Core.List.{append-nil}
use fastapi_langgraph_templa.Schema.{EventRow, Db}
use fastapi_langgraph_templa.Events.{
  RuntimeEvent, of_run, max_seq, successor, next_seq, append_many,
}
use fastapi_langgraph_templa.Events.Sequence.{
  NumberedFrom, IsNumbered, is_last, has_end, stored, stored_row, log_many_lem,
}

max_seq-of_run :
    (run_id : String) (rows : List EventRow)
    → max_seq run_id rows ≡ max_seq run_id (of_run run_id rows)
unfolding max_seq
max_seq-of_run run_id [] = refl
max_seq-of_run run_id (e ∷ es) = ground (arith, max_seq-of_run run_id es)

of_run-IsOf :
    (run_id : String) (rows : List EventRow)
    → All (λ e. str_eq e.run_id run_id ≡ true) (of_run run_id rows)
of_run-IsOf run_id [] = tt
of_run-IsOf run_id (e ∷ es) = ground (arith, of_run-IsOf run_id es)

numbered-max_seq :
    (run_id : String) (k : ℕ) (e : EventRow) (es : List EventRow)
    → All (λ x. str_eq x.run_id run_id ≡ true) (e ∷ es)
    → NumberedFrom k (e ∷ es)
    → max_seq run_id (e ∷ es) ≡ some (k + length es)
unfolding max_seq
numbered-max_seq run_id k e [] o n = ground arith
numbered-max_seq run_id k e (f ∷ fs) o n =
    ground (arith, numbered-max_seq run_id (suc k) f fs o.1 n.1)

successor-max_seq :
    (run_id : String) (rows : List EventRow)
    → All (λ x. str_eq x.run_id run_id ≡ true) rows
    → NumberedFrom 0 rows
    → successor (max_seq run_id rows) ≡ length rows
unfolding max_seq
successor-max_seq run_id [] o n = refl
successor-max_seq run_id (e ∷ es) o n = ground (arith, numbered-max_seq run_id 0 e es o n)

-- The next number of a numbered run is the count of its events.
next_seq-length :
    (run_id : String) (rows : List EventRow)
    → IsNumbered run_id rows
    → next_seq run_id rows ≡ length (of_run run_id rows)
unfolding next_seq
next_seq-length run_id rows n =
    ap successor (max_seq-of_run run_id rows)
    ∙ successor-max_seq run_id (of_run run_id rows) (of_run-IsOf run_id rows) n

of_run-append :
    (run_id : String) (xs ys : List EventRow)
    → of_run run_id (xs ++ ys) ≡ of_run run_id xs ++ of_run run_id ys
of_run-append run_id [] ys = refl
of_run-append run_id (x ∷ xs) ys = ground (arith, of_run-append run_id xs ys)

NumberedFrom-append :
    (k : ℕ) (xs : List EventRow) (e : EventRow)
    → NumberedFrom k xs
    → e.seq ≡ k + length xs
    → NumberedFrom k (xs ++ e ∷ [])
NumberedFrom-append k [] e n h = omega arith
NumberedFrom-append k (x ∷ xs) e n h = (n.0, NumberedFrom-append (suc k) xs e n.1 (omega arith))

of_run-single_self :
    (run_id : String) (e : EventRow)
    → str_eq e.run_id run_id ≡ true
    → of_run run_id (e ∷ []) ≡ e ∷ []
of_run-single_self run_id e h = rw h

of_run-single_ne :
    (run_id : String) (e : EventRow) → str_eq e.run_id run_id ≡ false → of_run run_id (e ∷ []) ≡ []
of_run-single_ne run_id e h = rw h

IsNumbered-append :
    (run_id : String) (rows : List EventRow) (e : EventRow)
    → IsNumbered run_id rows
    → e.run_id ≡ run_id
    → e.seq ≡ length (of_run run_id rows)
    → IsNumbered run_id (rows ++ e ∷ [])
IsNumbered-append run_id rows e n r h =
    rw (of_run-append, of_run-single_self run_id e (rw r (eq_refl run_id)))
      (NumberedFrom-append 0 (of_run run_id rows) e n (omega arith))

-- one more event at the end, numbered by the count of its run's events
IsNumbered-append_any :
    (other : String) (rows : List EventRow) (e : EventRow)
    → IsNumbered other rows
    → e.seq ≡ length (of_run e.run_id rows)
    → IsNumbered other (rows ++ e ∷ [])
IsNumbered-append_any other rows e m h = elim (Bool-cases (str_eq e.run_id other)) [
  | inl same ↦
      let r = (eq_iff e.run_id other).0 same in
      IsNumbered-append other rows e m r (omega (arith, h, ap (λ k. length (of_run k rows)) r))
  | inr differs ↦ rw (of_run-append, of_run-single_ne other e differs, append-nil) m
]

-- Where the events of every run are numbered 0, 1, 2, ... in the order of the log, without a gap, the
-- append of one event, to whatever run and whatever its type is, leaves them so.
pub append_many-IsNumbered :
    (ids : ℕ → String) (run_id : String) (event : RuntimeEvent) (db : Db)
    → ((r : String) → IsNumbered r db.events)
    → (other : String) → IsNumbered other (append_many ids run_id (event ∷ []) db).events
unfolding append_many stored
append_many-IsNumbered ids run_id event db n other =
    rw (log_many_lem ids run_id (event ∷ []) db.events)
      (elim (Bool-cases (has_end run_id db.events && is_last event.type)) [
        | inl left_out ↦ rw (left_out, append-nil) (n other)
        | inr fits ↦
            let e = stored_row (ids 0) run_id (next_seq run_id db.events + 0) event in
            let count = next_seq-length run_id db.events (n run_id) in
            rw fits (IsNumbered-append_any other db.events e (n other) (omega (arith, count)))
      ])
