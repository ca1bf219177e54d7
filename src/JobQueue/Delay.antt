-- ===== src/JobQueue/Delay.antt =====
-- The wait of a failed job before its next attempt (`fail` of backend/src/utils/job_queue.rs).
use project_hermes.Base.{
  ℕ, ◌+◌, ◌≤◌, ◌<◌, String, ◌≡◌, refl, inl, inr, Bool, true, false, [], ◌∷◌, arith, Uuid, Time,
  secs, ◌==◌, lt→ltb, Bool-cases, Option-cases, update_where, All,
}
use project_hermes.Base.Int.{ℤ}
use project_hermes.JobQueue.{
  Job, Jobs, is_runnable, oldest, claim_next, requeued, fail, backoff_secs,
}
use project_hermes.JobQueue.Claim.{IsOldest, oldest-IsOldest}
use project_hermes.JobQueue.Exclusive.{is_job, All-Memᴰ}

module _ {J : Type 0} where
  abbrev Waits : Time → Uuid → Job J → Type 0
  Waits until id j = j.id ≡ id → until ≤ j.run_after

  fail_rows :
      (now : Time) (id : Uuid) (attempts : ℕ) (error : String) (jobs : Jobs J)
      → All
          (Waits (now + secs (backoff_secs (ℤ.pos attempts))) id)
          (update_where (λ j. j.id == id) (requeued now attempts error) jobs)
  fail_rows now id attempts error [] = tt
  fail_rows now id attempts error (j ∷ js) =
      ((λ e. ground arith), fail_rows now id attempts error js)

  waiting_row :
      (row_locked : Uuid → Bool) (until now : Time) (id : Uuid) (j : Job J)
      → is_runnable row_locked now j ≡ true
      → Waits until id j
      → now < until
      → (j.id == id) ≡ false
  waiting_row row_locked until now id j runnable waits early = elim (Bool-cases (j.id == id)) [
    | inl same ↦ absurd (ground (arith, waits (ground arith)))
    | inr other ↦ other
  ]

  -- After a failure with attempts left, no worker claims the job before its backoff has passed.
  pub fail-claim_next :
      (row_locked : Uuid → Bool) (failed_at now : Time) (id : Uuid) (attempts max_attempts : ℕ)
      (error worker : String) (jobs : Jobs J)
      → attempts < max_attempts
      → now < failed_at + secs (backoff_secs (ℤ.pos attempts))
      → is_job id
          (claim_next row_locked now worker (fail failed_at id attempts max_attempts error jobs)).0
        ≡ false
  unfolding claim_next fail
  fail-claim_next row_locked failed_at now id attempts max_attempts error worker jobs room early =
      let rows =
        update_where (λ (j : Job J). j.id == id) (requeued failed_at attempts error) jobs in
      rw (lt→ltb attempts max_attempts room)
        (elim (Option-cases (oldest (is_runnable row_locked now) rows)) [
          | inl none_left ↦ rw none_left refl
          | inr (j, found) ↦
              let top : IsOldest (is_runnable row_locked now) rows j =
                oldest-IsOldest _ rows found in
              let waits : Waits (failed_at + secs (backoff_secs (ℤ.pos attempts))) id j =
                All-Memᴰ (Waits _ id) rows (fail_rows failed_at id attempts error jobs)
                  top.member in
              rw found (waiting_row row_locked _ now id j top.satisfies waits early)
        ])
