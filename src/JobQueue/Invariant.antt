-- ===== src/JobQueue/Invariant.antt =====
-- Sequences of the statements of backend/src/utils/job_queue.rs, by any number of workers and
-- replicas, and what holds of every row after them.
use project_hermes.Base.{
  ℕ, ◌<◌, String, ◌≡◌, Bool, true, false, Option, none, some, List, [], ◌∷◌, arith, Uuid, Time, ltb,
  All, All-append, All-if, All-update_where,
}
use project_hermes.JobQueue.{
  Job, Jobs, is_running, enqueue, claim_next, is_runnable, claim_found, oldest, claimed, beaten,
  completed, released, heartbeat, complete, requeued, given_up, fail, reclaim_stale,
}

-- One statement that some worker, replica or handler sends.
pub data Event (J : Type 0) : Type 0 where
  enqueues : Uuid → String → J → Event J
  claims : (Uuid → Bool) → String → Event J
  heartbeats : Uuid → Event J
  completes : Uuid → Event J
  fails : Uuid → ℕ → ℕ → String → Event J
  reclaims : Event J

abbrev pub is_some {ℓ} : {A : Type ℓ} → Option A → Bool
is_some none = false
is_some (some _) = true

module _ {J : Type 0} where
  unfoldable pub step : Time → Event J → Jobs J → Jobs J
  step now (enqueues id kind payload) jobs = enqueue now id kind payload jobs
  step now (claims row_locked worker) jobs = (claim_next row_locked now worker jobs).1
  step now (heartbeats id) jobs = heartbeat now id jobs
  step now (completes id) jobs = complete now id jobs
  step now (fails id attempts max_attempts error) jobs =
      fail now id attempts max_attempts error jobs
  step now reclaims jobs = (reclaim_stale now jobs).0

  unfoldable pub run : List (Time × Event J) → Jobs J → Jobs J
  run [] jobs = jobs
  run ((now, e) ∷ es) jobs = run es (step now e jobs)

  -- A row is locked by a worker exactly while it runs, and then it has a heartbeat and was tried.
  pub record IsConsistent (j : Job J) : Type 0 where
    pub owned : is_running j.status ≡ is_some j.locked_by
    pub beating : is_running j.status ≡ true → is_some j.locked_at ≡ true
    pub tried : is_running j.status ≡ true → 0 < j.attempts

  claimed-IsConsistent :
      (now : Time) (worker : String) (j : Job J)
      → IsConsistent j
      → IsConsistent (claimed now worker j)
  claimed-IsConsistent now worker j c = ground arith

  beaten-IsConsistent : (now : Time) (j : Job J) → IsConsistent j → IsConsistent (beaten now j)
  beaten-IsConsistent now j c = ground arith

  completed-IsConsistent :
      (now : Time) (j : Job J) → IsConsistent j → IsConsistent (completed now j)
  completed-IsConsistent now j c = ground arith

  requeued-IsConsistent :
      (now : Time) (attempts : ℕ) (error : String) (j : Job J)
      → IsConsistent j
      → IsConsistent (requeued now attempts error j)
  requeued-IsConsistent now attempts error j c = ground arith

  given_up-IsConsistent :
      (now : Time) (error : String) (j : Job J)
      → IsConsistent j
      → IsConsistent (given_up now error j)
  given_up-IsConsistent now error j c = ground arith

  released-IsConsistent : (now : Time) (j : Job J) → IsConsistent j → IsConsistent (released now j)
  released-IsConsistent now j c = ground arith

  fail-IsConsistent :
      (now : Time) (id : Uuid) (attempts max_attempts : ℕ) (error : String) (jobs : Jobs J)
      → All IsConsistent jobs
      → All IsConsistent (fail now id attempts max_attempts error jobs)
  unfolding fail
  fail-IsConsistent now id attempts max_attempts error jobs h =
      All-if (All IsConsistent) (ltb attempts max_attempts) _ _
        (All-update_where IsConsistent _ _ jobs (requeued-IsConsistent now attempts error) h)
        (All-update_where IsConsistent _ _ jobs (given_up-IsConsistent now error) h)

  claim_found-IsConsistent :
      (now : Time) (worker : String) (jobs : Jobs J) (found : Option (Job J))
      → All IsConsistent jobs
      → All IsConsistent (claim_found now worker jobs found).1
  claim_found-IsConsistent now worker jobs none h = h
  claim_found-IsConsistent now worker jobs (some j) h =
      All-update_where IsConsistent _ _ jobs (claimed-IsConsistent now worker) h

  step-IsConsistent :
      (now : Time) (e : Event J) (jobs : Jobs J)
      → All IsConsistent jobs
      → All IsConsistent (step now e jobs)
  unfolding step enqueue claim_next heartbeat complete reclaim_stale
  step-IsConsistent now (enqueues id kind payload) jobs h =
      All-append IsConsistent jobs _ h (ground arith, tt)
  step-IsConsistent now (claims row_locked worker) jobs h =
      claim_found-IsConsistent now worker jobs (oldest (is_runnable row_locked now) jobs) h
  step-IsConsistent now (heartbeats id) jobs h =
      All-update_where IsConsistent _ _ jobs (beaten-IsConsistent now) h
  step-IsConsistent now (completes id) jobs h =
      All-update_where IsConsistent _ _ jobs (completed-IsConsistent now) h
  step-IsConsistent now (fails id attempts max_attempts error) jobs h =
      fail-IsConsistent now id attempts max_attempts error jobs h
  step-IsConsistent now reclaims jobs h =
      All-update_where IsConsistent _ _ jobs (released-IsConsistent now) h

  -- After any statements from any workers, at any times, a row is locked exactly while it runs, and
  -- a running row has a heartbeat and at least one attempt, if all rows were so at the start.
  pub run-IsConsistent :
      (es : List (Time × Event J)) (jobs : Jobs J)
      → All IsConsistent jobs
      → All IsConsistent (run es jobs)
  unfolding run
  run-IsConsistent [] jobs h = h
  run-IsConsistent ((now, e) ∷ es) jobs h =
      run-IsConsistent es (step now e jobs) (step-IsConsistent now e jobs h)
