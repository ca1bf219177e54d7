-- ===== src/JobQueue/Reclaim.antt =====
-- The recovery of orphaned jobs (`heartbeat` and `reclaim_stale` of backend/src/utils/job_queue.rs).
use project_hermes.Base.{
  ℕ, zero, suc, ◌+◌, ◌≤◌, String, ◌≡◌, refl, ◌≢◌, Bool, true, false, none, [], ◌∷◌, arith, Uuid,
  Time, update_where,
}
use mathlib.Core.List.{Memᴰ}
use project_hermes.JobQueue.{
  Job, Jobs, is_queued, is_runnable, oldest, claim_next, claimed, released, heartbeat, is_stale,
  reclaim_stale, stale_after,
}
use project_hermes.JobQueue.Claim.{claim_next-none}
use project_hermes.JobQueue.Exclusive.{frees, All-Memᴰ}
use project_hermes.JobQueue.Invariant.{reclaims}

abbrev pub no_locks : Uuid → Bool
no_locks id = false

module _ {J : Type 0} where
  -- For stale_after from a heartbeat on, the reclaimer does not free the job.
  pub heartbeat-frees :
      (beat now : Time) (id : Uuid) (jobs : Jobs J)
      → now ≤ beat + stale_after
      → frees now id reclaims (heartbeat beat id jobs) ≡ false
  unfolding heartbeat
  heartbeat-frees beat now id [] h = refl
  heartbeat-frees beat now id (j ∷ js) h = ground (arith, heartbeat-frees beat now id js h)

  member_updated :
      (p : Job J → Bool) (f : Job J → Job J) (jobs : Jobs J) {j : Job J}
      → Memᴰ j jobs
      → p j ≡ true
      → Memᴰ (f j) (update_where p f jobs)
  member_updated p f [] m t = elim m [ ]
  member_updated p f (k ∷ ks) (Memᴰ.head e) t = Memᴰ.head (ground arith)
  member_updated p f (k ∷ ks) (Memᴰ.tail m) t = Memᴰ.tail (member_updated p f ks m t)

  runnable_row :
      (now later : Time) (j : Job J)
      → is_runnable no_locks later (released now j) ≡ false
      → j.run_after ≤ now
      → now ≤ later
      → ⊥
  runnable_row now later j h due order = ground arith

  -- A running job without a heartbeat for longer than stale_after is in the queue again after the
  -- reclaim, with its payload and attempts, and the next claim by any worker finds a job.
  pub reclaim_stale-claim_next :
      (now later : Time) (worker : String) (jobs : Jobs J) {j : Job J}
      → Memᴰ j jobs
      → is_stale now j ≡ true
      → j.run_after ≤ now
      → now ≤ later
      → Memᴰ (released now j) (reclaim_stale now jobs).0
        × ((claim_next no_locks later worker (reclaim_stale now jobs).0).0 ≢ none)
  unfolding reclaim_stale
  reclaim_stale-claim_next now later worker jobs {j = j} m stale due order =
      let m' : Memᴰ (released now j) (update_where (is_stale now) (released now) jobs) =
        member_updated (is_stale now) (released now) jobs m stale in
      (
        m',
        λ e. absurd (
            runnable_row now later j (All-Memᴰ _ _ (claim_next-none no_locks later worker _ e).0 m')
              due order),
      )

  -- Crash of the worker of a claimed job: claimed at `now`, never beaten, and reclaimed once stale.
  abbrev crash_cycle : Time → String → Jobs J → Jobs J
  crash_cycle now worker jobs =
      (reclaim_stale (now + stale_after + 1) (claim_next no_locks now worker jobs).1).0

  pub crash_cycles : ℕ → Time → String → Jobs J → Jobs J
  crash_cycles zero now worker jobs = jobs
  crash_cycles (suc n) now worker jobs =
      crash_cycles n (now + stale_after + 1) worker (crash_cycle now worker jobs)

  crash_row :
      (now : Time) (worker : String) (j : Job J)
      → is_queued j.status ≡ true
      → j.run_after ≤ now
      → crash_cycle now worker (j ∷ [])
        ≡ released (now + stale_after + 1) (claimed now worker j) ∷ []
  unfolding claim_next oldest reclaim_stale
  crash_row now worker j q due = ground arith

  -- However often its worker crashes, a job in a queue of its own is queued again: the reclaimer
  -- lets the number of attempts pass max_attempts and never gives the job up.
  pub crash_cycles-attempts :
      (n : ℕ) (now : Time) (worker : String) (j : Job J)
      → is_queued j.status ≡ true
      → j.run_after ≤ now
      → (k : Job J) × (crash_cycles n now worker (j ∷ []) ≡ k ∷ [])
        × (is_queued k.status ≡ true)
        × (k.attempts ≡ j.attempts + n)
        × (k.max_attempts ≡ j.max_attempts)
  unfolding crash_cycles
  crash_cycles-attempts zero now worker j q due = (j, refl, q, omega arith, refl)
  crash_cycles-attempts (suc n) now worker j q due =
      let next = released (now + stale_after + 1) (claimed now worker j) in
      let (k, same, q', counted, limit) =
        crash_cycles-attempts n (now + stale_after + 1) worker next refl (omega arith) in
      (k, rw (crash_row now worker j q due) same, q', omega arith, limit)
