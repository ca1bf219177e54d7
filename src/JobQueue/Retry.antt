-- ===== src/JobQueue/Retry.antt =====
-- The life of a job of backend/src/utils/job_queue.rs, from its insertion to its end.
use project_hermes.Base.{
  ℕ, zero, suc, ◌+◌, ◌≤◌, ◌<◌, String, ◌≡◌, refl, ◌∙◌, inr, Bool, true, false, Option, some, [],
  ◌∷◌, arith, Uuid, Time, ltb, leb, if◌then◌else◌, map,
}
use project_hermes.JobQueue.{
  JobStatus, Job, Jobs, claimed, requeued, given_up, succeeded, failed, is_queued, enqueue,
  claim_next, oldest, complete, fail,
}
use project_hermes.JobQueue.Dispatch.{
  BuildPayload, run_kpack_build, run_ephemeral_build, Codec, is_kpack, enqueue_build, dispatch,
  worker_turn,
}

abbrev pub is_failed : JobStatus → Bool
is_failed failed = true
is_failed _ = false

module _ {J : Type 0} (codec : Codec J) (unknown_kind : String → String) (env : Option String) where
  -- A build put into an empty queue is claimed by the next worker, which calls the builder with the
  -- payload that was enqueued, once, and marks the job succeeded.
  pub enqueue_build-worker_turn :
      (now later done : Time) (id instance_id : Uuid) (repo branch worker : String)
      (cmd : Option String)
      → now ≤ later
      → let turn =
          worker_turn codec unknown_kind env later done worker
            (enqueue_build codec now id instance_id repo branch cmd []) in
        let payload : BuildPayload = record {
          instance_id = instance_id;
          git_repo = repo;
          branch = branch;
          build_cmd = cmd;
        } in
        (turn.1
          ≡ some (if is_kpack env then run_kpack_build payload else run_ephemeral_build payload))
        × (map (λ (j : Job J). j.status) turn.0 ≡ succeeded ∷ [])
  unfolding worker_turn enqueue_build enqueue claim_next oldest dispatch complete
  enqueue_build-worker_turn now later done id instance_id repo branch worker cmd h = ground (
    arith,
    codec.build_round_trip
        (record { instance_id = instance_id; git_repo = repo; branch = branch; build_cmd = cmd }),
  )

  abbrev due : Jobs J → Time
  due [] = 0
  due (j ∷ _) = j.run_after

  -- Turns of a worker, each as soon as the first job may run again.
  pub turns : ℕ → String → Jobs J → Jobs J
  turns zero worker jobs = jobs
  turns (suc n) worker jobs =
      turns n worker (worker_turn codec unknown_kind env (due jobs) (due jobs) worker jobs).0

  abbrev refused : Time → String → String → Job J → Job J
  refused now worker error j =
      let c = claimed now worker j in
      if ltb c.attempts c.max_attempts
      then requeued now c.attempts error c
      else given_up now error c

  turn_refused :
      (worker error : String) (j : Job J)
      → is_queued j.status ≡ true
      → dispatch codec unknown_kind env j.kind j.payload ≡ inr error
      → (worker_turn codec unknown_kind env j.run_after j.run_after worker (j ∷ [])).0
        ≡ refused j.run_after worker error j ∷ []
  unfolding worker_turn claim_next oldest fail
  turn_refused worker error j q e = ground (arith, e)

  turn_requeued :
      (worker error : String) (j : Job J)
      → is_queued j.status ≡ true
      → dispatch codec unknown_kind env j.kind j.payload ≡ inr error
      → j.attempts + 1 < j.max_attempts
      → (worker_turn codec unknown_kind env j.run_after j.run_after worker (j ∷ [])).0
        ≡ requeued j.run_after (j.attempts + 1) error (claimed j.run_after worker j) ∷ []
  turn_requeued worker error j q e room = turn_refused worker error j q e ∙ ground arith

  -- A queued job that every dispatch refuses, in a queue of its own, is queued again after each
  -- turn until its attempts reach max_attempts, and is then failed: after n turns, up to that end,
  -- it has n more attempts.
  pub turns-dispatch :
      (n : ℕ) (worker error : String) (j : Job J)
      → is_queued j.status ≡ true
      → dispatch codec unknown_kind env j.kind j.payload ≡ inr error
      → j.attempts < j.max_attempts
      → j.attempts + n ≤ j.max_attempts
      → (k : Job J) × (turns n worker (j ∷ []) ≡ k ∷ [])
        × (k.attempts ≡ j.attempts + n)
        × (is_queued k.status ≡ ltb (j.attempts + n) j.max_attempts)
        × (is_failed k.status ≡ leb j.max_attempts (j.attempts + n))
  unfolding turns
  turns-dispatch zero worker error j q e room h = (j, refl, omega arith, ground arith, ground arith)
  turns-dispatch (suc zero) worker error j q e room h = (
    refused j.run_after worker error j,
    turn_refused worker error j q e,
    ground arith,
    ground arith,
    ground arith,
  )
  turns-dispatch (suc (suc n)) worker error j q e room h =
      let next = requeued j.run_after (j.attempts + 1) error (claimed j.run_after worker j) in
      let (k, same, counted, waits, ends) =
        turns-dispatch (suc n) worker error next refl e (omega arith) (omega arith) in
      (
        k,
        rw (turn_requeued worker error j q e (omega arith)) same,
        omega arith,
        waits ∙ ground arith,
        ends ∙ ground arith,
      )
