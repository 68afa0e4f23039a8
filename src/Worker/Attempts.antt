-- ===== src/Worker/Attempts.antt =====
-- The attempts of a job whose workers die without a word.
use fastapi_langgraph_templa.Common.{
  ℕ, zero, suc, ◌+◌, ◌*◌, ◌≡◌, refl, ap, subst, ◌∙◌, lt→ltb, eq_refl, [], ◌∷◌, some, true, false,
  arith, not,
}
use native.Mathlib.Nat.{suc-mul}
use fastapi_langgraph_templa.State.{is_terminal}
use fastapi_langgraph_templa.Schema.{JobRow, RunRow, Db, run_by_id, queued}
use fastapi_langgraph_templa.Worker.{
  WorkerConfig, claim_next, claimed, is_due, is_claimable, open_run, first_by_created,
}
use fastapi_langgraph_templa.Lifecycle.{Steps, here, next, claims}

-- the job after n claims, each a second after the lease of the one before has run out
unfoldable pub after_claims : WorkerConfig → JobRow → ℕ → JobRow
after_claims w job zero = job
after_claims w job (suc n) = claimed w (n * (w.lease_seconds + 1)) (after_claims w job n)

-- a table of one job
abbrev pub only_job : Db → JobRow → Db
only_job db job = record db { jobs = job ∷ [] }

claim_only :
    (w : WorkerConfig) (now : ℕ) (db : Db) (j : JobRow)
    → is_claimable now db.runs j ≡ true
    → (claim_next w now (λ _. false) (only_job db j)).0 ≡ only_job db (claimed w now j)
unfolding claim_next first_by_created
claim_only w now db j h = rw (h, eq_refl j.id) refl

module _ (w : WorkerConfig) (db : Db) (job : JobRow) (run : RunRow)
    (found : run_by_id job.run_id db.runs ≡ some run) (live : is_terminal run.status ≡ false)
    (waits : job.status ≡ queued) where
  same_run : (n : ℕ) → (after_claims w job n).run_id ≡ job.run_id
  unfolding after_claims
  same_run zero = refl
  same_run (suc n) = same_run n

  due_again :
      (n : ℕ)
      → is_due (n * (w.lease_seconds + 1)) (after_claims w job n).status (after_claims w job n)
        ≡ true
  unfolding after_claims
  due_again zero = rw waits
  due_again (suc n) =
      lt→ltb (n * (w.lease_seconds + 1) + w.lease_seconds) (suc n * (w.lease_seconds + 1))
        (omega (arith, suc-mul))

  open_again : (n : ℕ) → open_run (run_by_id (after_claims w job n).run_id db.runs) ≡ true
  open_again n =
      ap (λ k. open_run (run_by_id k db.runs)) (same_run n) ∙ (ap open_run found ∙ ap not live)

  claimable_again :
      (n : ℕ) → is_claimable (n * (w.lease_seconds + 1)) db.runs (after_claims w job n) ≡ true
  unfolding is_claimable
  claimable_again n = ground (arith, due_again n, open_again n)

  claim_again :
      (n : ℕ)
      → (claim_next w
          (n * (w.lease_seconds + 1))
          (λ _. false)
          (only_job db (after_claims w job n))).0
        ≡ only_job db (after_claims w job (suc n))
  unfolding after_claims
  claim_again n =
      claim_only w (n * (w.lease_seconds + 1)) db (after_claims w job n) (claimable_again n)

  -- No limit holds on the attempts of a job whose workers die: for every n there are transactions
  -- that bring the waiting job of an open Run to n attempts more, whatever its `max_attempts` is.
  pub attempts_unbounded :
      (n : ℕ)
      → Steps (only_job db job) (only_job db (after_claims w job n))
        × ((after_claims w job n).attempt_count ≡ job.attempt_count + n)
  unfolding after_claims
  attempts_unbounded zero = (here, omega arith)
  attempts_unbounded (suc n) =
      let (steps, count) = attempts_unbounded n in
      (
        subst (Steps (only_job db job)) (claim_again n) (
            next steps (
              claims w (n * (w.lease_seconds + 1)) (λ _. false)
                (only_job db (after_claims w job n)))),
        omega (arith, count),
      )
