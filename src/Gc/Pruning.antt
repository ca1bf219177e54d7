-- ===== src/Gc/Pruning.antt =====
-- `prune_old_jobs` of backend/src/utils/gc.rs and the queue of backend/src/utils/job_queue.rs.
use project_hermes.Base.{
  ℕ, String, ◌≡◌, refl, ap, ◌∙◌, inl, inr, Bool, true, false, Option, none, some, [], ◌∷◌, arith,
  Uuid, Time, if◌then◌else◌, Bool-cases, delete_where,
}
use project_hermes.JobQueue.{
  JobStatus, Job, Jobs, is_queued, is_runnable, older, oldest, claim_found, claim_next,
}
use project_hermes.Gc.{is_finished, is_old_job, prune_old_jobs}

finished_idle : (s : JobStatus) → is_finished s ≡ true → is_queued s ≡ false
finished_idle JobStatus.queued h = absurd (cc)
finished_idle JobStatus.running h = refl
finished_idle JobStatus.succeeded h = refl
finished_idle JobStatus.failed h = refl

module _ {J : Type 0} where
  oldest_pruned :
      (p q : Job J → Bool) (jobs : Jobs J)
      → ((j : Job J) → q j ≡ true → p j ≡ false)
      → oldest p (delete_where q jobs) ≡ oldest p jobs
  unfolding oldest
  oldest_pruned p q [] h = refl
  oldest_pruned p q (j ∷ jobs) h =
      let rest = oldest_pruned p q jobs h in
      elim (Bool-cases (q j)) [
        | inl gone ↦ let idle = h j gone in rw (gone, idle) rest
        | inr stays ↦ rw stays (ap (λ o. if p j then older j o else o) rest)
      ]

  old_idle :
      (row_locked : Uuid → Bool) (days : ℕ) (at now : Time) (j : Job J)
      → is_old_job days at j ≡ true
      → is_runnable row_locked now j ≡ false
  old_idle row_locked days at now j h = ground (arith, finished_idle j.status)

  same_job :
      (now : Time) (worker : String) (jobs others : Jobs J) (o : Option (Job J))
      → (claim_found now worker jobs o).0 ≡ (claim_found now worker others o).0
  same_job now worker jobs others none = refl
  same_job now worker jobs others (some j) = refl

  -- The pruning of finished jobs, of any age and at any time, does not change which job a worker
  -- claims next.
  pub claim_next-prune_old_jobs :
      (row_locked : Uuid → Bool) (answered : Bool) (days : ℕ) (at now : Time) (worker : String)
      (jobs : Jobs J)
      → (claim_next row_locked now worker (prune_old_jobs answered days at jobs).0).0
        ≡ (claim_next row_locked now worker jobs).0
  unfolding claim_next prune_old_jobs
  claim_next-prune_old_jobs row_locked false days at now worker jobs = refl
  claim_next-prune_old_jobs row_locked true days at now worker jobs =
      same_job now worker _ jobs _
      ∙ ap (λ o. (claim_found now worker jobs o).0)
          (oldest_pruned (is_runnable row_locked now) (is_old_job days at) jobs
            (old_idle row_locked days at now))
