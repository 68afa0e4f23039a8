-- ===== src/Examples/Jobs.antt =====
-- The theorems on jobs at concrete rows.
use fastapi_langgraph_templa.Common.{◌+◌, ◌≡◌, ◌≢◌, refl, [], ◌∷◌, none, some, Bool, false, arith}
use mathlib.Core.List.{Memᴰ}
use fastapi_langgraph_templa.State.{queued, running}
use fastapi_langgraph_templa.Schema.{JobRow, Db}
use fastapi_langgraph_templa.Worker.{
  claim_next, claimed, complete, fail, fail_without_retry, heartbeat,
}
use fastapi_langgraph_templa.Worker.Claim.{
  claim_next_sound, IsTaken, HasOpenRun, IsDue, IsFirst, candidate,
}
use fastapi_langgraph_templa.Worker.Leases.{lost_lease_inert}
use fastapi_langgraph_templa.Worker.Exclusive.{claim_exclusive}
use fastapi_langgraph_templa.Schema.{JobStatus}
use fastapi_langgraph_templa.Worker.RunOnce.{settle, raised}
use fastapi_langgraph_templa.Worker.Settled.{Ends, settle_raised}
use fastapi_langgraph_templa.Worker.Attempts.{after_claims, only_job, attempts_unbounded}
use fastapi_langgraph_templa.Lifecycle.{Steps}
use fastapi_langgraph_templa.Examples.{run_in, ann, bob, db_with, job1, job2}

-- nothing is locked by another transaction
abbrev free : JobRow → Bool
free j = false

abbrev two_jobs : Db
two_jobs = db_with queued (job2 ∷ job1 ∷ [])

abbrev one_claimed : Db
one_claimed = db_with running (claimed ann 10 job1 ∷ [])

first_claimed : (claim_next ann 10 free two_jobs).1 ≡ some (claimed ann 10 job1)
unfolding claim_next
first_claimed = refl

second_claimed :
    (claim_next bob 30 free (claim_next ann 10 free two_jobs).0).1 ≡ some (claimed bob 30 job2)
unfolding claim_next
second_claimed = refl

leased : (claim_next bob 20 free one_claimed).1 ≡ none
unfolding claim_next
leased = refl

claim_next_sound_example :
    (old : JobRow) × Memᴰ old (job2 ∷ job1 ∷ [])
    × IsTaken ann 10 old (claimed ann 10 job1)
    × HasOpenRun old two_jobs.runs
    × IsDue 10 old
    × (false ≡ false)
    × IsFirst (candidate 10 free two_jobs) old (job2 ∷ job1 ∷ [])
claim_next_sound_example = claim_next_sound ann 10 free two_jobs (claimed ann 10 job1) first_claimed

claim_exclusive_example : (claimed ann 10 job1).id ≢ (claimed bob 30 job2).id
claim_exclusive_example =
    claim_exclusive ann bob 10 30 free free two_jobs (claimed ann 10 job1) (claimed bob 30 job2)
      first_claimed (omega arith) second_claimed

lost_lease_inert_example :
    (complete bob 20 "j1" one_claimed ≡ one_claimed)
    × (fail bob 20 "j1" "late" one_claimed ≡ one_claimed)
    × (fail_without_retry bob 20 "j1" "late" one_claimed ≡ one_claimed)
    × (heartbeat bob 20 "j1" one_claimed ≡ (one_claimed, false))
lost_lease_inert_example = lost_lease_inert bob 20 "j1" "late" one_claimed (refl, tt)

attempts_unbounded_example :
    Steps (db_with queued (job1 ∷ [])) (only_job (db_with queued []) (after_claims ann job1 7))
    × ((after_claims ann job1 7).attempt_count ≡ 0 + 7)
attempts_unbounded_example =
    attempts_unbounded ann (db_with queued []) job1 (run_in queued) refl refl refl 7

settle_raised_example :
    Ends
      (claimed ann 10 job1)
      JobStatus.retry_wait
      queued
      (settle ann (λ n. n) (λ _. "e") (claimed ann 10 job1) (raised "boom") one_claimed).0
settle_raised_example =
    settle_raised ann (λ n. n) (λ _. "e") "boom" one_claimed (claimed ann 10 job1) (run_in running)
      refl refl refl refl
