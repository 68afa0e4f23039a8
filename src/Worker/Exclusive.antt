-- ===== src/Worker/Exclusive.antt =====
-- A job under a lease is not claimed.
use fastapi_langgraph_templa.Common.{
  ℕ, ◌+◌, ◌≤◌, str_eq, eq_refl, ◌≡◌, ◌≢◌, refl, ap, sym, ◌∙◌, List, [], ◌∷◌, Option, none, some,
  Bool, true, arith, Bool-cases, inl, inr,
}
use mathlib.Core.List.{Memᴰ}
use mathlib.Core.List.Memᴰ
use fastapi_langgraph_templa.Common.Table.{update_where}
use fastapi_langgraph_templa.Schema.{JobRow, Db}
use fastapi_langgraph_templa.Worker.{WorkerConfig, claimed, claim_next, claim_found}
use fastapi_langgraph_templa.Worker.Claim.{claim_next_found, IsDue}

-- the rows that an update has written
written :
    (q : JobRow → Bool) (u : JobRow → JobRow) (jobs : List JobRow) (j : JobRow)
    → ((k : JobRow) → q (u k) ≡ q k)
    → Memᴰ j (update_where q u jobs)
    → q j ≡ true
    → (old : JobRow) × (j ≡ u old)
written q u [] j keep m h = absurd (Memᴰ.not-nil m)
written q u (x ∷ xs) j keep m h = elim (Memᴰ.cases_cons m) [
  | inr later ↦ written q u xs j keep later h
  | inl e ↦ elim (Bool-cases (q x)) [
    | inl hit ↦ (x, rw hit at e)
    | inr miss ↦ cc (ap q (rw miss at e), h, miss)
  ]
]

claim_found-jobs :
    (w : WorkerConfig) (now : ℕ) (o : Option JobRow) (db : Db) (job : JobRow)
    → (claim_found w now o db).1 ≡ some job
    → (claim_found w now o db).0.jobs
      ≡ update_where (λ j. str_eq j.id job.id) (claimed w now) db.jobs
claim_found-jobs w now none db job h = cc
claim_found-jobs w now (some old) db job h = ground arith

pub jobs-claim_next :
    (w : WorkerConfig) (now : ℕ) (locked : JobRow → Bool) (db : Db) (job : JobRow)
    → (claim_next w now locked db).1 ≡ some job
    → (claim_next w now locked db).0.jobs
      ≡ update_where (λ j. str_eq j.id job.id) (claimed w now) db.jobs
unfolding claim_next
jobs-claim_next w now locked db job h = claim_found-jobs w now _ db job h

leased_not_due :
    (w : WorkerConfig) (now later : ℕ) (j old : JobRow)
    → j ≡ claimed w now old
    → later ≤ now + w.lease_seconds
    → IsDue later j
    → ⊥
leased_not_due w now later j old e le due = ground arith

-- The claim that follows on a claim, by any worker, at any time up to the end of the lease, never
-- takes the same job.
pub claim_exclusive :
    (w v : WorkerConfig) (now later : ℕ) (locked locked' : JobRow → Bool) (db : Db)
    (job other : JobRow)
    → (claim_next w now locked db).1 ≡ some job
    → later ≤ now + w.lease_seconds
    → (claim_next v later locked' (claim_next w now locked db).0).1 ≡ some other
    → job.id ≢ other.id
claim_exclusive w v now later locked locked' db job other h le g e =
    let db' = (claim_next w now locked db).0 in
    let (old, there, is, _, due, _, _) = claim_next_found v later locked' db' other g in
    let same : old.id ≡ job.id = sym (e ∙ ap (λ (j : JobRow). j.id) is) in
    let (before, was) =
      written (λ j. str_eq j.id job.id) (claimed w now) db.jobs old (λ k. refl)
        (rw (jobs-claim_next w now locked db job h) at there) (rw same (eq_refl job.id)) in
    leased_not_due w now later old before was le due
