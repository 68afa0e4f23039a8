-- ===== src/Events/Ordered.antt =====
-- What the log keeps under `append_many`: the order of the numbers, and its terminal events.
use fastapi_langgraph_templa.Common.{
  ℕ, suc, ◌≤◌, ◌<◌, ◌+◌, ◌≡◌, refl, sym, subst, ◌∙◌, String, str_eq, eq_iff, List, [], ◌∷◌, ◌++◌,
  Bool, true, false, ◌&&◌, ◌||◌, arith, length, any, filter, All, Bool-cases, inl, inr,
  if◌then◌else◌,
}
use mathlib.Core.List.{append-nil, append_assoc}
use fastapi_langgraph_templa.Schema.{EventRow}
use fastapi_langgraph_templa.Events.{RuntimeEvent, of_run, next_seq, ends_run, event_row, log_many}
use fastapi_langgraph_templa.Events.Sequence.{
  is_end, has_end, AllBelow, AllBelow-mono, next_seq-AllBelow, stored, appended, log_many_lem,
}

-- the numbers rise from k on, with gaps or without
abbrev pub RisesFrom : ℕ → List EventRow → Type 0
RisesFrom k [] = Unit
RisesFrom k (e ∷ es) = (k ≤ e.seq) × RisesFrom (suc e.seq) es

-- the terminal events of the run
abbrev pub ends_of : String → List EventRow → List EventRow
ends_of run_id = filter (is_end run_id)

-- the run's events stand in the table in the order of their numbers, no number comes twice, and at
-- most one of them is terminal
abbrev pub IsOrdered : String → List EventRow → Type 0
IsOrdered run_id rows = RisesFrom 0 (of_run run_id rows) × (length (ends_of run_id rows) ≤ 1)

-- a row that does not conflict with the rows of the table
abbrev pub Fresh : EventRow → List EventRow → Type 0
Fresh e rows = AllBelow e.run_id e.seq rows × ((has_end e.run_id rows && ends_run e.type) ≡ false)

-- what a row that does not conflict keeps, `append_many` keeps
module _ (P : List EventRow → Type 0)
    (one : (e : EventRow) (rows : List EventRow) → Fresh e rows → P rows → P (rows ++ e ∷ [])) where
  stored-keeps :
      (ids : ℕ → String) (run_id : String) (next offset : ℕ) (closed : Bool)
      (events : List RuntimeEvent) (rows : List EventRow)
      → AllBelow run_id (next + offset) rows
      → has_end run_id rows ≡ closed
      → P rows
      → P (rows ++ stored ids run_id next offset closed events)
  unfolding stored
  stored-keeps ids run_id next offset closed [] rows b h p = rw append-nil p
  stored-keeps ids run_id next offset closed (event ∷ rest) rows b h p =
      let e = event_row (ids offset) run_id (next + offset) event in
      elim (Bool-cases (closed && ends_run event.type)) [
        | inl clash ↦ rw clash (
            stored-keeps ids run_id next (offset + 1) closed rest rows
              (AllBelow-mono run_id (next + offset) (next + (offset + 1)) rows (omega arith) b) h p)
        | inr fresh ↦
            let (b', h') = appended run_id next offset closed e rows refl refl b h in
            let more =
              stored-keeps ids run_id next (offset + 1) (closed || ends_run event.type) rest
                (rows ++ e ∷ []) b' h' (one e rows (b, rw h fresh) p) in
            rw fresh (
              subst P
                (append_assoc rows (e ∷ [])
                  (stored ids run_id next (offset + 1) (closed || ends_run event.type) rest))
                more)
      ]

  pub log_many-keeps :
      (ids : ℕ → String) (run_id : String) (events : List RuntimeEvent) (rows : List EventRow)
      → P rows
      → P (log_many ids run_id events rows)
  log_many-keeps ids run_id events rows p = subst P (sym (log_many_lem ids run_id events rows)) (
      stored-keeps ids run_id (next_seq run_id rows) 0 (has_end run_id rows) events rows
        (AllBelow-mono run_id (next_seq run_id rows) (next_seq run_id rows + 0) rows (omega arith)
          (next_seq-AllBelow run_id rows))
        refl p)

filter-snoc :
    (p : EventRow → Bool) (rows : List EventRow) (e : EventRow)
    → filter p (rows ++ e ∷ []) ≡ (if p e then filter p rows ++ e ∷ [] else filter p rows)
filter-snoc p [] e = ground arith
filter-snoc p (x ∷ xs) e = ground (arith, filter-snoc p xs e)

filter_none : (p : EventRow → Bool) (rows : List EventRow) → any p rows ≡ false → filter p rows ≡ []
filter_none p [] h = refl
filter_none p (x ∷ xs) h = ground (arith, filter_none p xs)

RisesFrom-snoc :
    (k : ℕ) (xs : List EventRow) (e : EventRow)
    → RisesFrom k xs
    → All (λ x. x.seq < e.seq) xs
    → k ≤ e.seq
    → RisesFrom k (xs ++ e ∷ [])
RisesFrom-snoc k [] e r b h = (h, tt)
RisesFrom-snoc k (x ∷ xs) e r b h =
    (r.0, RisesFrom-snoc (suc x.seq) xs e r.1 b.1 (let less = b.0 in omega arith))

of_run-AllBelow :
    (run_id : String) (k : ℕ) (rows : List EventRow)
    → AllBelow run_id k rows
    → All (λ x. x.seq < k) (of_run run_id rows)
of_run-AllBelow run_id k [] b = tt
of_run-AllBelow run_id k (e ∷ es) b = elim (Bool-cases (str_eq e.run_id run_id)) [
  | inl own ↦ rw own (b.0 own, of_run-AllBelow run_id k es b.1)
  | inr other ↦ rw other (of_run-AllBelow run_id k es b.1)
]

IsOrdered-snoc :
    (other : String) (e : EventRow) (rows : List EventRow)
    → Fresh e rows
    → IsOrdered other rows
    → IsOrdered other (rows ++ e ∷ [])
IsOrdered-snoc other e rows (b, fresh) (rises, one) = elim (Bool-cases (str_eq e.run_id other)) [
  | inr differs ↦
      rw
        (
          filter-snoc (λ x. str_eq x.run_id other) rows e,
          filter-snoc (is_end other) rows e,
          differs,
        )
        (rises, one)
  | inl own ↦
      let same : e.run_id ≡ other = (eq_iff e.run_id other).0 own in
      let b' : AllBelow other e.seq rows = subst (λ r. AllBelow r e.seq rows) same b in
      let fresh' : (has_end other rows && ends_run e.type) ≡ false =
        subst (λ r. (has_end r rows && ends_run e.type) ≡ false) same fresh in
      (
        subst (RisesFrom 0) (sym (filter-snoc (λ x. str_eq x.run_id other) rows e)) (
            rw own (
              RisesFrom-snoc 0 (of_run other rows) e rises (of_run-AllBelow other e.seq rows b')
                (omega arith))),
        subst (λ l. length l ≤ 1) (sym (filter-snoc (is_end other) rows e))
            (elim (Bool-cases (ends_run e.type)) [
              | inr open_ ↦ rw (own, open_) one
              | inl ends ↦
                  rw (own, ends, filter_none (is_end other) rows (ground arith)) (omega arith)
            ]),
      )
]

pub log_many-IsOrdered :
    (ids : ℕ → String) (run_id : String) (events : List RuntimeEvent) (rows : List EventRow)
    → ((r : String) → IsOrdered r rows)
    → (r : String) → IsOrdered r (log_many ids run_id events rows)
log_many-IsOrdered ids run_id events rows h r =
    log_many-keeps (IsOrdered r) (IsOrdered-snoc r) ids run_id events rows (h r)

any_some :
    (p : EventRow → Bool) (rows : List EventRow) (x : EventRow) (xs : List EventRow)
    → filter p rows ≡ x ∷ xs
    → any p rows ≡ true
any_some p [] x xs h = ground arith
any_some p (y ∷ ys) x xs h = elim (Bool-cases (p y)) [
  | inl is ↦ rw is refl
  | inr other ↦ rw other (any_some p ys x xs (rw other at h))
]

ends_of-snoc :
    (run_id : String) (x : EventRow) (e : EventRow) (rows : List EventRow)
    → Fresh e rows
    → ends_of run_id rows ≡ x ∷ []
    → ends_of run_id (rows ++ e ∷ []) ≡ x ∷ []
ends_of-snoc run_id x e rows (b, fresh) h =
    let closed : has_end run_id rows ≡ true = any_some (is_end run_id) rows x [] h in
    filter-snoc (is_end run_id) rows e ∙ elim (Bool-cases (str_eq e.run_id run_id)) [
      | inr differs ↦ rw differs h
      | inl own ↦
          let fresh' : (has_end run_id rows && ends_run e.type) ≡ false =
            subst (λ r. (has_end r rows && ends_run e.type) ≡ false)
              ((eq_iff e.run_id run_id).0 own) fresh in
          let open_ : ends_run e.type ≡ false = ground arith in rw (own, open_) h
    ]

-- a terminal event in the log stays the only one of its run
pub log_many-ends_of :
    (ids : ℕ → String) (run_id r : String) (events : List RuntimeEvent) (x : EventRow)
    (rows : List EventRow)
    → ends_of r rows ≡ x ∷ []
    → ends_of r (log_many ids run_id events rows) ≡ x ∷ []
log_many-ends_of ids run_id r events x rows =
    log_many-keeps (λ l. ends_of r l ≡ x ∷ []) (ends_of-snoc r x) ids run_id events rows
