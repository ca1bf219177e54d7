-- ===== src/Examples/JobQueue.antt =====
-- Jobs of backend/src/utils/job_queue.rs at concrete inputs.
use project_hermes.Base.{
  ◌+◌, String, ◌≡◌, refl, ◌⊎◌, inl, inr, true, false, none, some, List, [], ◌∷◌, arith, Uuid, Time,
  ltb, leb, if◌then◌else◌, All, map,
}
use project_hermes.Base.Int.{pos}
use project_hermes.JobQueue.{
  queued, succeeded, Job, Jobs, is_queued, claim_next, claimed, oldest, heartbeat, reclaim_stale,
  backoff_secs,
}
use project_hermes.JobQueue.Dispatch.{
  BuildPayload, DeployPayload, run_kpack_build, run_ephemeral_build, Codec, is_kpack, enqueue_build,
  dispatch, worker_turn,
}
use project_hermes.JobQueue.Exclusive.{keeps_held, claims_job, claim_next-exclusive}
use project_hermes.JobQueue.Invariant.{
  Event, claims, heartbeats, reclaims, step, run, IsConsistent, run-IsConsistent,
}
use project_hermes.JobQueue.Reclaim.{no_locks, crash_cycles, crash_cycles-attempts}
use project_hermes.JobQueue.Retry.{is_failed, turns, turns-dispatch, enqueue_build-worker_turn}

abbrev Json : Type 0
Json = BuildPayload ⊎ DeployPayload

abbrev read_build : Json → BuildPayload ⊎ String
read_build (inl p) = inl p
read_build (inr p) = inr "missing field `git_repo`"

abbrev read_deploy : Json → DeployPayload ⊎ String
read_deploy (inl p) = inr "unexpected"
read_deploy (inr p) = inl p

abbrev codec : Codec Json
codec = record {
  build_to_value = inl;
  build_from_value = read_build;
  deploy_to_value = inr;
  deploy_from_value = read_deploy;
  build_round_trip = λ p. refl;
  deploy_round_trip = λ p. refl;
}

abbrev unknown : String → String
unknown kind = "unknown job kind"

abbrev job : Uuid → String → Job Json
job id kind = record {
  id = id;
  kind = kind;
  payload = inr (record { instance_id = 7; image_tag = none });
  status = queued;
  attempts = 0;
  max_attempts = 3;
  run_after = 5;
  locked_at = none;
  locked_by = none;
  last_error = none;
  created_at = id;
  updated_at = 5;
}

abbrev two_jobs : Jobs Json
two_jobs = job 2 "deploy" ∷ job 1 "build" ∷ []

claim_oldest :
    (claim_next no_locks 9 "worker-0" two_jobs).0 ≡ some (claimed 9 "worker-0" (job 1 "build"))
unfolding claim_next oldest
claim_oldest = refl

abbrev events : List (Time × Event Json)
events =
    (20, claims no_locks "worker-1")
    ∷ (30, heartbeats 1)
    ∷ (40, reclaims)
    ∷ (50, claims no_locks "worker-2")
    ∷ []

claim_next-exclusive_example :
    claims_job 1 events (claim_next no_locks 9 "worker-0" two_jobs).1 ≡ false
claim_next-exclusive_example =
    claim_next-exclusive no_locks 9 "worker-0" two_jobs claim_oldest events
      (unfold keeps_held step claim_next oldest heartbeat reclaim_stale in refl)

run-IsConsistent_example : All IsConsistent (run events two_jobs)
run-IsConsistent_example = run-IsConsistent events two_jobs (ground arith, (ground arith, tt))

turns-dispatch_example :
    (k : Job Json) × (turns codec unknown none 3 "worker-0" (job 1 "clean" ∷ []) ≡ k ∷ [])
    × (k.attempts ≡ 0 + 3)
    × (is_queued k.status ≡ ltb (0 + 3) 3)
    × (is_failed k.status ≡ leb 3 (0 + 3))
turns-dispatch_example =
    turns-dispatch codec unknown none 3 "worker-0" "unknown job kind" (job 1 "clean") refl
      (unfold dispatch in refl) (omega arith) (omega arith)

abbrev orphan : Job Json
orphan = claimed 9 "worker-0" (job 1 "build")

crash_cycles-attempts_example :
    (k : Job Json) × (crash_cycles 5 9 "worker-0" (job 1 "build" ∷ []) ≡ k ∷ [])
    × (is_queued k.status ≡ true)
    × (k.attempts ≡ 0 + 5)
    × (k.max_attempts ≡ 3)
crash_cycles-attempts_example =
    crash_cycles-attempts 5 9 "worker-0" (job 1 "build") refl (omega arith)

enqueue_build-worker_turn_example :
    let turn =
      worker_turn codec unknown none 20 30 "worker-0"
        (enqueue_build codec 10 1 7 "git@host:app" "main" none []) in
    let payload : BuildPayload = record {
      instance_id = 7;
      git_repo = "git@host:app";
      branch = "main";
      build_cmd = none;
    } in
    (turn.1 ≡ some (if is_kpack none then run_kpack_build payload else run_ephemeral_build payload))
    × (map (λ (j : Job Json). j.status) turn.0 ≡ succeeded ∷ [])
enqueue_build-worker_turn_example =
    enqueue_build-worker_turn codec unknown none 10 20 30 1 7 "git@host:app" "main" "worker-0" none
      (omega arith)

backoff_tests :
    map backoff_secs (pos 0 ∷ pos 1 ∷ pos 3 ∷ pos 10 ∷ pos 1000 ∷ [])
    ≡ 10 ∷ 20 ∷ 80 ∷ 300 ∷ 300 ∷ []
unfolding backoff_secs
backoff_tests = refl
