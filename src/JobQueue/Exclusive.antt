-- ===== src/JobQueue/Exclusive.antt =====
-- A job of backend/src/utils/job_queue.rs is never run by two workers at once, as long as its worker
-- writes heartbeats.
use project_hermes.Base.{
  ℕ, String, ◌≡◌, refl, sym, ap, subst, inl, inr, Bool, true, false, ◌&&◌, ◌||◌, not, Option, none,
  some, List, [], ◌∷◌, arith, Uuid, Time, ltb, ◌==◌, if◌then◌else◌, Option-cases, any, update_where,
  All, All-append, All-if,
}
use mathlib.Core.List.{Memᴰ}
use project_hermes.JobQueue.{
  Job, Jobs, is_running, enqueue, claim_next, claim_found, is_runnable, oldest, claimed, beaten,
  completed, released, heartbeat, complete, requeued, given_up, fail, is_stale, reclaim_stale,
}
use project_hermes.JobQueue.Claim.{IsOldest, oldest-IsOldest, claim_next-some}
use project_hermes.JobQueue.Invariant.{
  Event, enqueues, claims, heartbeats, completes, fails, reclaims, step,
}

pub All-Memᴰ {ℓ κ} :
    {A : Type ℓ} (P : A → Type κ) (xs : List A) {x : A} → All P xs → Memᴰ x xs → P x
All-Memᴰ P [] all m = elim m [ ]
All-Memᴰ P (y ∷ xs) all (Memᴰ.head e) = subst P (sym e) all.0
All-Memᴰ P (y ∷ xs) all (Memᴰ.tail m) = All-Memᴰ P xs all.1 m

module _ {J : Type 0} where
  -- The statements after which the job `id` may be claimed again: its end, and its reclaim.
  abbrev pub frees : Time → Uuid → Event J → Jobs J → Bool
  frees now id (enqueues id' _ _) jobs = id' == id
  frees now id (claims _ _) jobs = false
  frees now id (heartbeats _) jobs = false
  frees now id (completes id') jobs = id' == id
  frees now id (fails id' _ _ _) jobs = id' == id
  frees now id reclaims jobs = any (λ j. j.id == id && is_stale now j) jobs

  -- No statement of the run frees the job.
  unfoldable pub keeps_held : Uuid → List (Time × Event J) → Jobs J → Bool
  keeps_held id [] jobs = true
  keeps_held id ((now, e) ∷ es) jobs =
      not (frees now id e jobs) && keeps_held id es (step now e jobs)

  abbrev claim_made : Time → Event J → Jobs J → Option (Job J)
  claim_made now (claims row_locked worker) jobs = (claim_next row_locked now worker jobs).0
  claim_made now _ jobs = none

  abbrev pub is_job : Uuid → Option (Job J) → Bool
  is_job id none = false
  is_job id (some j) = j.id == id

  -- Some claim of the run returns the job.
  pub claims_job : Uuid → List (Time × Event J) → Jobs J → Bool
  claims_job id [] jobs = false
  claims_job id ((now, e) ∷ es) jobs =
      is_job id (claim_made now e jobs) || claims_job id es (step now e jobs)

  -- Rows with the key `id` are running.
  abbrev IsHeld : Uuid → Job J → Type 0
  IsHeld id j = j.id ≡ id → is_running j.status ≡ true

  update-IsHeld :
      (id key : Uuid) (f : Job J → Job J) (jobs : Jobs J)
      → (key == id) ≡ false
      → ((j : Job J) → (f j).id ≡ j.id)
      → All (IsHeld id) jobs
      → All (IsHeld id) (update_where (λ j. j.id == key) f jobs)
  update-IsHeld id key f [] ne same h = tt
  update-IsHeld id key f (j ∷ js) ne same h =
      (ground (arith, same j), update-IsHeld id key f js ne same h.1)

  reclaim_row :
      (now : Time) (id : Uuid) (j : Job J) (stale : Bool)
      → ((j.id == id && stale) ≡ false)
      → IsHeld id j
      → IsHeld id (if stale then released now j else j)
  reclaim_row now id j true fresh h e = absurd (ground arith)
  reclaim_row now id j false fresh h e = h e

  reclaim-IsHeld :
      (now : Time) (id : Uuid) (jobs : Jobs J)
      → any (λ j. j.id == id && is_stale now j) jobs ≡ false
      → All (IsHeld id) jobs
      → All (IsHeld id) (update_where (is_stale now) (released now) jobs)
  reclaim-IsHeld now id [] fresh h = tt
  reclaim-IsHeld now id (j ∷ js) fresh h = (
    reclaim_row now id j (is_stale now j) (ground arith) h.0,
    reclaim-IsHeld now id js (ground arith) h.1,
  )

  claim_row :
      (now : Time) (id key : Uuid) (worker : String) (j : Job J)
      → IsHeld id j
      → IsHeld id (if j.id == key then claimed now worker j else j)
  claim_row now id key worker j h = ground arith

  claim-IsHeld :
      (now : Time) (id key : Uuid) (worker : String) (jobs : Jobs J)
      → All (IsHeld id) jobs
      → All (IsHeld id) (update_where (λ j. j.id == key) (claimed now worker) jobs)
  claim-IsHeld now id key worker [] h = tt
  claim-IsHeld now id key worker (j ∷ js) h =
      (claim_row now id key worker j h.0, claim-IsHeld now id key worker js h.1)

  claim_found-IsHeld :
      (now : Time) (id : Uuid) (worker : String) (jobs : Jobs J) (found : Option (Job J))
      → All (IsHeld id) jobs
      → All (IsHeld id) (claim_found now worker jobs found).1
  claim_found-IsHeld now id worker jobs none h = h
  claim_found-IsHeld now id worker jobs (some j) h = claim-IsHeld now id j.id worker jobs h

  fail-IsHeld :
      (now : Time) (id key : Uuid) (attempts max_attempts : ℕ) (error : String) (jobs : Jobs J)
      → (key == id) ≡ false
      → All (IsHeld id) jobs
      → All (IsHeld id) (fail now key attempts max_attempts error jobs)
  unfolding fail
  fail-IsHeld now id key attempts max_attempts error jobs ne h =
      All-if (All (IsHeld id)) (ltb attempts max_attempts) _ _
        (update-IsHeld id key (requeued now attempts error) jobs ne (λ j. refl) h)
        (update-IsHeld id key (given_up now error) jobs ne (λ j. refl) h)

  beat-IsHeld :
      (now : Time) (id key : Uuid) (jobs : Jobs J)
      → All (IsHeld id) jobs
      → All (IsHeld id) (update_where (λ j. j.id == key) (beaten now) jobs)
  beat-IsHeld now id key [] h = tt
  beat-IsHeld now id key (j ∷ js) h = (ground (arith, h.0), beat-IsHeld now id key js h.1)

  step-IsHeld :
      (now : Time) (id : Uuid) (e : Event J) (jobs : Jobs J)
      → frees now id e jobs ≡ false
      → All (IsHeld id) jobs
      → All (IsHeld id) (step now e jobs)
  unfolding step enqueue claim_next heartbeat complete reclaim_stale
  step-IsHeld now id (enqueues id' kind payload) jobs ne h =
      All-append (IsHeld id) jobs _ h ((λ e. absurd (ground arith)), tt)
  step-IsHeld now id (claims row_locked worker) jobs ne h =
      claim_found-IsHeld now id worker jobs (oldest (is_runnable row_locked now) jobs) h
  step-IsHeld now id (heartbeats id') jobs ne h = beat-IsHeld now id id' jobs h
  step-IsHeld now id (completes id') jobs ne h =
      update-IsHeld id id' (completed now) jobs ne (λ j. refl) h
  step-IsHeld now id (fails id' attempts max_attempts error) jobs ne h =
      fail-IsHeld now id id' attempts max_attempts error jobs ne h
  step-IsHeld now id reclaims jobs ne h = reclaim-IsHeld now id jobs ne h

  queued_row :
      (now : Time) (id : Uuid) (j : Job J) (row_locked : Uuid → Bool)
      → is_runnable row_locked now j ≡ true
      → IsHeld id j
      → (j.id == id) ≡ false
  queued_row now id j row_locked runnable held = ground (arith, held)

  -- The row that a claim returns was queued, so it is not a held one.
  claim_other :
      (row_locked : Uuid → Bool) (now : Time) (worker : String) (id : Uuid) (jobs : Jobs J)
      → All (IsHeld id) jobs
      → is_job id (claim_next row_locked now worker jobs).0 ≡ false
  unfolding claim_next
  claim_other row_locked now worker id jobs h =
      elim (Option-cases (oldest (is_runnable row_locked now) jobs)) [
        | inl none_left ↦ ground arith
        | inr (j, found) ↦
            let top : IsOldest (is_runnable row_locked now) jobs j = oldest-IsOldest _ jobs found in
            let held : IsHeld id j = All-Memᴰ (IsHeld id) jobs h top.member in
            rw found (queued_row now id j row_locked top.satisfies held)
      ]

  event_other :
      (now : Time) (id : Uuid) (e : Event J) (jobs : Jobs J)
      → All (IsHeld id) jobs
      → is_job id (claim_made now e jobs) ≡ false
  event_other now id (claims row_locked worker) jobs h = claim_other row_locked now worker id jobs h
  event_other now id _ jobs h = refl

  run-claims :
      (id : Uuid) (es : List (Time × Event J)) (jobs : Jobs J)
      → keeps_held id es jobs ≡ true
      → All (IsHeld id) jobs
      → claims_job id es jobs ≡ false
  unfolding keeps_held claims_job step
  run-claims id [] jobs keeps h = refl
  run-claims id ((now, e) ∷ es) jobs keeps h = ground (
    arith,
    event_other now id e jobs h,
    run-claims id es (step now e jobs) (ground arith) (step-IsHeld now id e jobs (ground arith) h),
  )

  claimed-IsHeld :
      (now : Time) (id : Uuid) (worker : String) (jobs : Jobs J)
      → All (IsHeld id) (update_where (λ j. j.id == id) (claimed now worker) jobs)
  claimed-IsHeld now id worker [] = tt
  claimed-IsHeld now id worker (j ∷ js) = (ground arith, claimed-IsHeld now id worker js)

  -- While no statement frees a claimed job (its end, or its reclaim as stale), no claim by any
  -- worker returns it again.
  pub claim_next-exclusive :
      (row_locked : Uuid → Bool) (now : Time) (worker : String) (jobs : Jobs J) {c : Job J}
      → (claim_next row_locked now worker jobs).0 ≡ some c
      → (es : List (Time × Event J))
      → keeps_held c.id es (claim_next row_locked now worker jobs).1 ≡ true
      → claims_job c.id es (claim_next row_locked now worker jobs).1 ≡ false
  claim_next-exclusive row_locked now worker jobs {c = c} got es keeps =
      let (j, top, same, after) = claim_next-some row_locked now worker jobs got in
      let same_id : c.id ≡ j.id = ap (λ (k : Job J). k.id) same in
      run-claims c.id es _ keeps (rw (after, same_id) (claimed-IsHeld now j.id worker jobs))
