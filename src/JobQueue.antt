-- ===== src/JobQueue.antt =====
-- backend/src/utils/job_queue.rs: the durable queue of build and deploy jobs. The table `jobs` is a
-- list of rows; each function is one SQL statement at the database's time `now`. A payload is JSON
-- text of the type `J`, which serde writes and reads. The counters are PostgreSQL integers that the
-- model leaves unbounded.
pub mod Backoff
pub mod Claim
pub mod Delay
pub mod Dispatch
pub mod Exclusive
pub mod Invariant
pub mod Reclaim
pub mod Retry
use project_hermes.Base.{
  ℕ, ◌+◌, ◌-◌, ◌*◌, ◌^◌, min, String, Bool, true, false, ◌&&◌, not, Option, none, some, List, [],
  ◌∷◌, ◌++◌, ltb, leb, ◌==◌, if◌then◌else◌, update_where, count_where, Uuid, Time, secs,
}
use project_hermes.Base.Int.{ℤ, pos_part}

abbrev pub stale_after : Time
stale_after = secs 180

abbrev pub heartbeat_every : Time
heartbeat_every = secs 30

pub data JobStatus : Type 0 where
  queued running succeeded failed : JobStatus

pub record Job (J : Type 0) : Type 0 where
  pub id : Uuid
  pub kind : String
  pub payload : J
  pub status : JobStatus
  pub attempts : ℕ
  pub max_attempts : ℕ
  pub run_after : Time
  pub locked_at : Option Time
  pub locked_by : Option String
  pub last_error : Option String
  pub created_at : Time
  pub updated_at : Time

abbrev pub Jobs : Type 0 → Type 0
Jobs J = List (Job J)

abbrev pub i64_max : ℕ
i64_max = 2 ^ 63 - 1

-- `attempts.max(0)` is the non-negative part; both products saturate at `i64::MAX`.
unfoldable pub backoff_secs : ℤ → ℕ
backoff_secs attempts = min (min (10 * min (2 ^ pos_part attempts) i64_max) i64_max) 300

abbrev pub is_queued : JobStatus → Bool
is_queued queued = true
is_queued _ = false

abbrev pub is_running : JobStatus → Bool
is_running running = true
is_running _ = false

-- A heartbeat written more than `stale_after` ago. SQL's NULL is not `<`.
abbrev pub older_than_lease : Time → Option Time → Bool
older_than_lease now none = false
older_than_lease now (some t) = ltb (t + stale_after) now

module _ {J : Type 0} where
  -- A row inserted with the column defaults of the table.
  unfoldable pub enqueue : Time → Uuid → String → J → Jobs J → Jobs J
  enqueue now id kind payload jobs =
      jobs
      ++ record {
        id = id;
        kind = kind;
        payload = payload;
        status = queued;
        attempts = 0;
        max_attempts = 3;
        run_after = now;
        locked_at = none;
        locked_by = none;
        last_error = none;
        created_at = now;
        updated_at = now;
      }
        ∷ []

  -- `row_locked` are the rows that other transactions hold, which SKIP LOCKED passes over.
  abbrev pub is_runnable : (Uuid → Bool) → Time → Job J → Bool
  is_runnable row_locked now j = is_queued j.status && leb j.run_after now && not (row_locked j.id)

  abbrev pub older : Job J → Option (Job J) → Option (Job J)
  older j none = some j
  older j (some k) = if leb j.created_at k.created_at then some j else some k

  -- ... WHERE p ORDER BY created_at LIMIT 1
  unfoldable pub oldest : (Job J → Bool) → Jobs J → Option (Job J)
  oldest p [] = none
  oldest p (j ∷ js) = let rest = oldest p js in if p j then older j rest else rest

  -- What the UPDATE of `claim_next` sets.
  abbrev pub claimed : Time → String → Job J → Job J
  claimed now worker j = record j {
    status = running;
    attempts = j.attempts + 1;
    locked_at = some now;
    locked_by = some worker;
    updated_at = now;
  }

  abbrev pub claim_found : Time → String → Jobs J → Option (Job J) → Option (Job J) × Jobs J
  claim_found now worker jobs none = (none, jobs)
  claim_found now worker jobs (some j) =
      (some (claimed now worker j), update_where (λ k. k.id == j.id) (claimed now worker) jobs)

  -- The row returned is the one after the update; its `id`, `kind` and `payload` are used.
  unfoldable pub claim_next : (Uuid → Bool) → Time → String → Jobs J → Option (Job J) × Jobs J
  claim_next row_locked now worker jobs =
      claim_found now worker jobs (oldest (is_runnable row_locked now) jobs)

  abbrev pub beaten : Time → Job J → Job J
  beaten now j = record j { locked_at = some now }

  unfoldable pub heartbeat : Time → Uuid → Jobs J → Jobs J
  heartbeat now id = update_where (λ j. j.id == id) (beaten now)

  abbrev pub completed : Time → Job J → Job J
  completed now j = record j { status = succeeded; locked_by = none; updated_at = now }

  unfoldable pub complete : Time → Uuid → Jobs J → Jobs J
  complete now id = update_where (λ j. j.id == id) (completed now)

  -- The UPDATE of `fail` for a job that has attempts left.
  abbrev pub requeued : Time → ℕ → String → Job J → Job J
  requeued now attempts error j = record j {
    status = queued;
    locked_by = none;
    last_error = some error;
    run_after = now + secs (backoff_secs (ℤ.pos attempts));
    updated_at = now;
  }

  -- The UPDATE of `fail` for a job that has none left.
  abbrev pub given_up : Time → String → Job J → Job J
  given_up now error j = record j {
    status = failed;
    locked_by = none;
    last_error = some error;
    updated_at = now;
  }

  unfoldable pub fail : Time → Uuid → ℕ → ℕ → String → Jobs J → Jobs J
  fail now id attempts max_attempts error jobs =
      if ltb attempts max_attempts
      then update_where (λ j. j.id == id) (requeued now attempts error) jobs
      else update_where (λ j. j.id == id) (given_up now error) jobs

  -- A job whose worker has not written a heartbeat for `stale_after`.
  abbrev pub is_stale : Time → Job J → Bool
  is_stale now j = is_running j.status && older_than_lease now j.locked_at

  abbrev pub released : Time → Job J → Job J
  released now j = record j { status = queued; locked_by = none; updated_at = now }

  -- The new table, and the number of rows affected.
  unfoldable pub reclaim_stale : Time → Jobs J → Jobs J × ℕ
  reclaim_stale now jobs =
      (update_where (is_stale now) (released now) jobs, count_where (is_stale now) jobs)
