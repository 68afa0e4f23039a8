-- ===== src/Worker/Claim.antt =====
-- What `claim_next` claims.
use fastapi_langgraph_templa.Common.{
  ℕ, ◌+◌, ◌≤◌, ◌<◌, ◌≡◌, refl, ap, sym, subst, ◌∙◌, ◌⊎◌, List, [], ◌∷◌, Option, none, some, Bool,
  true, false, not, ◌&&◌, arith, if◌then◌else◌, Bool-cases, Option-cases, inl, inr, All, ltb,
}
use mathlib.Core.Option.{some-ne-none}
use mathlib.Core.List.{Memᴰ}
use fastapi_langgraph_templa.State.{is_terminal}
use fastapi_langgraph_templa.Schema.{JobStatus, JobRow, RunRow, Db, run_by_id}
use fastapi_langgraph_templa.Worker.{
  WorkerConfig, is_due, open_run, is_claimable, earlier, first_by_created, claimed, claim_next,
  claim_found, lt_if_set, null_or_le,
}

-- one row against the earliest of the rest: the row, or the earliest of the rest, is the earlier
abbrev NotAfter : JobRow → Option JobRow → Type 0
NotAfter x none = Unit
NotAfter x (some k) = x.created_at ≤ k.created_at

earlier_cases :
    (x : JobRow) (o : Option JobRow) (b : Bool) (j : JobRow)
    → (if b then earlier x o else o) ≡ some j
    → ((x ≡ j) × (b ≡ true) × NotAfter x o)
      ⊎ ((o ≡ some j) × (b ≡ true → j.created_at ≤ x.created_at))
earlier_cases x none true j h = inl (cc, refl, tt)
earlier_cases x (some k) true j h = elim (Bool-cases (ltb k.created_at x.created_at)) [
  | inl before ↦ inr (rw before at h, λ _. ground arith)
  | inr not_before ↦ inl (ground arith, refl, ground arith)
]
earlier_cases x o false j h = inr (h, λ e. cc)

first_by_created_sound :
    (p : JobRow → Bool) (jobs : List JobRow) (j : JobRow)
    → first_by_created p jobs ≡ some j
    → Memᴰ j jobs × (p j ≡ true)
unfolding first_by_created
first_by_created_sound p [] j h = cc
first_by_created_sound p (x ∷ xs) j h = elim (earlier_cases x (first_by_created p xs) (p x) j h) [
  | inl (e, t, _) ↦ (Memᴰ.head (sym e), ap p (sym e) ∙ t)
  | inr (e, _) ↦ let (m, t) = first_by_created_sound p xs j e in (Memᴰ.tail m, t)
]

-- the row is not after any of the rows that satisfy the test
abbrev pub IsFirst : (JobRow → Bool) → JobRow → List JobRow → Type 0
IsFirst p j = All (λ k. p k ≡ true → j.created_at ≤ k.created_at)

IsFirst-mono :
    (p : JobRow → Bool) (i j : JobRow) (jobs : List JobRow)
    → i.created_at ≤ j.created_at
    → IsFirst p j jobs
    → IsFirst p i jobs
IsFirst-mono p i j [] le h = tt
IsFirst-mono p i j (k ∷ ks) le h = (λ t. omega (arith, h.0 t), IsFirst-mono p i j ks le h.1)

first_by_created-none :
    (p : JobRow → Bool) (jobs : List JobRow)
    → first_by_created p jobs ≡ none
    → All (λ k. p k ≡ false) jobs
unfolding first_by_created
first_by_created-none p [] h = tt
first_by_created-none p (x ∷ xs) h = ground (arith, first_by_created-none p xs)

IsFirst-nothing :
    (p : JobRow → Bool) (j : JobRow) (jobs : List JobRow)
    → All (λ k. p k ≡ false) jobs
    → IsFirst p j jobs
IsFirst-nothing p j [] h = tt
IsFirst-nothing p j (k ∷ ks) h = (λ t. cc (h.0, t), IsFirst-nothing p j ks h.1)

IsFirst-rest :
    (p : JobRow → Bool) (j : JobRow) (jobs : List JobRow) (o : Option JobRow)
    → first_by_created p jobs ≡ o
    → ((k : JobRow) → o ≡ some k → IsFirst p k jobs)
    → NotAfter j o
    → IsFirst p j jobs
IsFirst-rest p j jobs none e first le = IsFirst-nothing p j jobs (first_by_created-none p jobs e)
IsFirst-rest p j jobs (some k) e first le = IsFirst-mono p j k jobs le (first k refl)

first_by_created-IsFirst :
    (p : JobRow → Bool) (jobs : List JobRow) (j : JobRow)
    → first_by_created p jobs ≡ some j
    → IsFirst p j jobs
unfolding first_by_created
first_by_created-IsFirst p [] j h = tt
first_by_created-IsFirst p (x ∷ xs) j h = elim (earlier_cases x (first_by_created p xs) (p x) j h) [
  | inl (e, _, le) ↦ (
    λ _. omega (arith, ap (λ (t : JobRow). t.created_at) e),
    IsFirst-rest p j xs (first_by_created p xs) refl (first_by_created-IsFirst p xs)
        (subst (λ t. NotAfter t (first_by_created p xs)) e le),
  )
  | inr (e, le) ↦ (le, first_by_created-IsFirst p xs j e)
]

-- The job waits for its first attempt, or its retry delay is over, or its lease has run out.
abbrev pub IsDue : ℕ → JobRow → Type 0
IsDue now j =
    (j.status ≡ JobStatus.queued)
    ⊎ ((j.status ≡ JobStatus.retry_wait) × ((t : ℕ) → j.next_attempt_at ≡ some t → t ≤ now))
    ⊎ ((j.status ≡ JobStatus.running) × ((t : ℕ) × (j.lease_expires_at ≡ some t) × (t < now)))

null_or_le_sound : (o : Option ℕ) (now t : ℕ) → null_or_le o now ≡ true → o ≡ some t → t ≤ now
null_or_le_sound none now t h e = cc
null_or_le_sound (some u) now t h e = ground arith

lt_if_set_sound :
    (o : Option ℕ) (now : ℕ) → lt_if_set o now ≡ true → (t : ℕ) × (o ≡ some t) × (t < now)
lt_if_set_sound none now h = cc
lt_if_set_sound (some t) now h = (t, refl, ground arith)

is_due-IsDue :
    (now : ℕ) (s : JobStatus) (j : JobRow) → j.status ≡ s → is_due now s j ≡ true → IsDue now j
is_due-IsDue now JobStatus.queued j e h = inl e
is_due-IsDue now JobStatus.retry_wait j e h =
    inr (inl (e, λ t n. null_or_le_sound j.next_attempt_at now t h n))
is_due-IsDue now JobStatus.running j e h = inr (inr (e, lt_if_set_sound j.lease_expires_at now h))
is_due-IsDue now JobStatus.completed j e h = cc
is_due-IsDue now JobStatus.failed j e h = cc

-- the run of the job exists and is not terminal
abbrev pub HasOpenRun : JobRow → List RunRow → Type 0
HasOpenRun j runs =
    (run : RunRow) × (run_by_id j.run_id runs ≡ some run) × (is_terminal run.status ≡ false)

open_run-HasOpenRun :
    (o : Option RunRow)
    → open_run o ≡ true
    → (run : RunRow) × (o ≡ some run) × (is_terminal run.status ≡ false)
open_run-HasOpenRun none h = cc
open_run-HasOpenRun (some run) h = (run, refl, ground arith)

abbrev pub candidate : ℕ → (JobRow → Bool) → Db → JobRow → Bool
candidate now locked db j = is_claimable now db.runs j && not (locked j)

is_claimable_sound :
    (now : ℕ) (runs : List RunRow) (j : JobRow)
    → is_claimable now runs j ≡ true
    → HasOpenRun j runs × IsDue now j
unfolding is_claimable
is_claimable_sound now runs j h = (
  open_run-HasOpenRun (run_by_id j.run_id runs) (ground arith),
  is_due-IsDue now j.status j refl (ground arith),
)

claim_found-some :
    (w : WorkerConfig) (now : ℕ) (o : Option JobRow) (db : Db) (job : JobRow)
    → (claim_found w now o db).1 ≡ some job
    → (old : JobRow) × (o ≡ some old) × (job ≡ claimed w now old)
claim_found-some w now none db job h = cc
claim_found-some w now (some old) db job h = (old, refl, ground arith)

-- the row that is claimed, and what holds of it
pub claim_next_found :
    (w : WorkerConfig) (now : ℕ) (locked : JobRow → Bool) (db : Db) (job : JobRow)
    → (claim_next w now locked db).1 ≡ some job
    → (old : JobRow) × Memᴰ old db.jobs
      × (job ≡ claimed w now old)
      × HasOpenRun old db.runs
      × IsDue now old
      × (locked old ≡ false)
      × IsFirst (candidate now locked db) old db.jobs
unfolding claim_next
claim_next_found w now locked db job h =
    let (old, e, is) =
      claim_found-some w now (first_by_created (candidate now locked db) db.jobs) db job h in
    let (there, ok) = first_by_created_sound (candidate now locked db) db.jobs old e in
    let (open_, due) = is_claimable_sound now db.runs old (ground arith) in
    (
      old,
      there,
      is,
      open_,
      due,
      ground arith,
      first_by_created-IsFirst (candidate now locked db) db.jobs old e,
    )

-- what the worker gets of an old row: the lease is its own and ends after its time, the attempt is
-- counted, and the job is the same
abbrev pub IsTaken : WorkerConfig → ℕ → JobRow → JobRow → Type 0
IsTaken w now old job =
    (job.id ≡ old.id)
    × (job.run_id ≡ old.run_id)
    × (job.status ≡ JobStatus.running)
    × (job.lease_owner ≡ some w.worker_id)
    × (job.claimed_at ≡ some now)
    × (job.heartbeat_at ≡ some now)
    × (job.lease_expires_at ≡ some (now + w.lease_seconds))
    × (job.attempt_count ≡ old.attempt_count + 1)
    × (job.max_attempts ≡ old.max_attempts)
    × (job.next_attempt_at ≡ none)

claimed-IsTaken :
    (w : WorkerConfig) (now : ℕ) (old : JobRow) → IsTaken w now old (claimed w now old)
claimed-IsTaken w now old = (refl, refl, refl, refl, refl, refl, refl, refl, refl, refl)

-- A claim takes a job of the table whose Run exists and is not terminal, that is due, that no other
-- transaction has locked, and that was created no later than any other such job. The worker gets
-- that job as running, with itself as the owner, with a lease that lasts `lease_seconds` from now,
-- with one attempt more and with no time of a next attempt.
pub claim_next_sound :
    (w : WorkerConfig) (now : ℕ) (locked : JobRow → Bool) (db : Db) (job : JobRow)
    → (claim_next w now locked db).1 ≡ some job
    → (old : JobRow) × Memᴰ old db.jobs
      × IsTaken w now old job
      × HasOpenRun old db.runs
      × IsDue now old
      × (locked old ≡ false)
      × IsFirst (candidate now locked db) old db.jobs
claim_next_sound w now locked db job h =
    let (old, there, is, open_, due, free, first) = claim_next_found w now locked db job h in
    (
      old,
      there,
      subst (IsTaken w now old) (sym is) (claimed-IsTaken w now old),
      open_,
      due,
      free,
      first,
    )

-- Where nothing is claimed, every job is either locked or not claimable, and the database is as it was.
claim_next-none :
    (w : WorkerConfig) (now : ℕ) (locked : JobRow → Bool) (db : Db)
    → (claim_next w now locked db).1 ≡ none
    → ((claim_next w now locked db).0 ≡ db) × All (λ j. candidate now locked db j ≡ false) db.jobs
unfolding claim_next
claim_next-none w now locked db h =
    elim (Option-cases (first_by_created (candidate now locked db) db.jobs)) [
      | inl e ↦ (rw e, first_by_created-none (candidate now locked db) db.jobs e)
      | inr (old, e) ↦ absurd (some-ne-none (claimed w now old) (rw e at h))
    ]
