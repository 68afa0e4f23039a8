-- ===== src/Events/Replay.antt =====
-- `list_after` reads the log from a cursor.
use fastapi_langgraph_templa.Common.{
  ℕ, zero, suc, ◌+◌, ◌≤◌, ◌≡◌, refl, ap, ◌∙◌, String, str_eq, List, [], ◌∷◌, ◌&&◌, arith, filter,
  drop,
}
use fastapi_langgraph_templa.Common.Int.{ℤ, pos, negsuc, below}
use native.Mathlib.Nat.{add-zero, add-suc, suc-add}
use fastapi_langgraph_templa.Schema.{EventRow, Db}
use fastapi_langgraph_templa.Events.{of_run, insert_by_seq, sort_by_seq, list_after}
use fastapi_langgraph_templa.Events.Sequence.{NumberedFrom, IsNumbered}

-- how many events a cursor has passed: those with a number up to it
abbrev pub seen : ℤ → ℕ
seen (pos n) = suc n
seen (negsuc _) = 0

filter-of_run :
    (run_id : String) (c : ℤ) (rows : List EventRow)
    → filter (λ e. str_eq e.run_id run_id && below c e.seq) rows
      ≡ filter (λ e. below c e.seq) (of_run run_id rows)
filter-of_run run_id c [] = refl
filter-of_run run_id c (e ∷ es) = ground (arith, filter-of_run run_id c es)

filter-above :
    (c : ℤ) (k : ℕ) (xs : List EventRow)
    → NumberedFrom k xs
    → seen c ≤ k
    → filter (λ e. below c e.seq) xs ≡ xs
filter-above c k [] n h = refl
filter-above (pos m) k (x ∷ xs) n h = ground (arith, filter-above (pos m) (suc k) xs n.1)
filter-above (negsuc m) k (x ∷ xs) n h =
    ap (λ t. x ∷ t) (filter-above (negsuc m) (suc k) xs n.1 (omega arith))

filter-drop :
    (c : ℤ) (d k : ℕ) (xs : List EventRow)
    → NumberedFrom k xs
    → seen c ≡ k + d
    → filter (λ e. below c e.seq) xs ≡ drop d xs
filter-drop c zero k xs n h = filter-above c k xs n (omega arith)
filter-drop c (suc d) k [] n h = refl
filter-drop (pos m) (suc d) k (x ∷ xs) n h = ground (arith, filter-drop (pos m) d (suc k) xs n.1)
filter-drop (negsuc m) (suc d) k (x ∷ xs) n h = absurd (omega arith)

pub NumberedFrom-drop :
    (d k : ℕ) (xs : List EventRow) → NumberedFrom k xs → NumberedFrom (k + d) (drop d xs)
NumberedFrom-drop zero k xs n = rw add-zero n
NumberedFrom-drop (suc d) k [] n = tt
NumberedFrom-drop (suc d) k (x ∷ xs) n =
    rw (add-suc, ← suc-add) (NumberedFrom-drop d (suc k) xs n.1)

insert_by_seq-first :
    (e : EventRow) (k : ℕ) (xs : List EventRow)
    → NumberedFrom k xs
    → e.seq ≤ k
    → insert_by_seq e xs ≡ e ∷ xs
unfolding insert_by_seq
insert_by_seq-first e k [] n h = refl
insert_by_seq-first e k (x ∷ xs) n h = ground arith

sort_by_seq-numbered : (k : ℕ) (xs : List EventRow) → NumberedFrom k xs → sort_by_seq xs ≡ xs
unfolding sort_by_seq
sort_by_seq-numbered k [] n = refl
sort_by_seq-numbered k (x ∷ xs) n =
    ap (insert_by_seq x) (sort_by_seq-numbered (suc k) xs n.1)
    ∙ insert_by_seq-first x (suc k) xs n.1 (omega arith)

-- Where the run's events are numbered without a gap, reading after a cursor gives all of them but
-- those the cursor has passed, in order: nothing is skipped and nothing comes twice.
pub list_after-drop :
    (run_id : String) (c : ℤ) (db : Db)
    → IsNumbered run_id db.events
    → list_after run_id c db ≡ drop (seen c) (of_run run_id db.events)
unfolding list_after
list_after-drop run_id c db n =
    ap sort_by_seq (
      filter-of_run run_id c db.events
      ∙ filter-drop c (seen c) 0 (of_run run_id db.events) n (omega arith))
    ∙ sort_by_seq-numbered (0 + seen c) _ (NumberedFrom-drop (seen c) 0 (of_run run_id db.events) n)
