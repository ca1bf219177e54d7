-- ===== src/JobQueue/Dispatch.antt =====
-- The payloads, `enqueue_build`, `enqueue_deploy`, `dispatch` and the body of a worker's loop in
-- backend/src/utils/job_queue.rs. The builder's functions own their success and failure and return
-- nothing, so a dispatch is the call that it makes. serde is a parameter: what it writes and reads.
use project_hermes.Base.{
  String, ◌≡◌, ◌⊎◌, inl, inr, Bool, false, Option, none, some, str_eq, Uuid, Time, ◌==◌,
  if◌then◌else◌, find,
}
use project_hermes.JobQueue.{Job, Jobs, enqueue, claim_next, complete, fail}

pub record BuildPayload : Type 0 where
  pub instance_id : Uuid
  pub git_repo : String
  pub branch : String
  pub build_cmd : Option String

pub record DeployPayload : Type 0 where
  pub instance_id : Uuid
  pub image_tag : Option String

-- The functions of utils/builder.rs that a job calls. `deploy_latest` resolves the tag first.
pub data Call : Type 0 where
  run_kpack_build : BuildPayload → Call
  run_ephemeral_build : BuildPayload → Call
  deploy_compiled_app : Uuid → String → Call
  deploy_latest : Uuid → Call

-- serde_json on the two payload structs. Writing a struct of strings and ids does not fail, and what
-- was written is read back.
pub record Codec (J : Type 0) : Type 0 where
  pub build_to_value : BuildPayload → J
  pub build_from_value : J → BuildPayload ⊎ String
  pub deploy_to_value : DeployPayload → J
  pub deploy_from_value : J → DeployPayload ⊎ String
  pub build_round_trip : (p : BuildPayload) → build_from_value (build_to_value p) ≡ inl p
  pub deploy_round_trip : (p : DeployPayload) → deploy_from_value (deploy_to_value p) ≡ inl p

-- `std::env::var("HERMES_BUILDER").as_deref() == Ok("kpack")`
abbrev pub is_kpack : Option String → Bool
is_kpack none = false
is_kpack (some builder) = str_eq builder "kpack"

module _ {J : Type 0} (codec : Codec J) where
  open codec use {build_to_value, build_from_value, deploy_to_value, deploy_from_value}

  unfoldable pub enqueue_build :
      Time → Uuid → Uuid → String → String → Option String → Jobs J → Jobs J
  enqueue_build now id instance_id git_repo branch build_cmd = enqueue now id "build" (
      build_to_value (record {
        instance_id = instance_id;
        git_repo = git_repo;
        branch = branch;
        build_cmd = build_cmd;
      }))

  unfoldable pub enqueue_deploy : Time → Uuid → Uuid → Option String → Jobs J → Jobs J
  enqueue_deploy now id instance_id image_tag =
      enqueue now id "deploy"
        (deploy_to_value (record { instance_id = instance_id; image_tag = image_tag }))

  abbrev build_call : Option String → BuildPayload ⊎ String → Call ⊎ String
  build_call hermes_builder (inl p) =
      inl (if is_kpack hermes_builder then run_kpack_build p else run_ephemeral_build p)
  build_call hermes_builder (inr error) = inr error

  abbrev deploy_tag : DeployPayload → Option String → Call
  deploy_tag p (some tag) = deploy_compiled_app p.instance_id tag
  deploy_tag p none = deploy_latest p.instance_id

  abbrev deploy_call : DeployPayload ⊎ String → Call ⊎ String
  deploy_call (inl p) = inl (deploy_tag p p.image_tag)
  deploy_call (inr error) = inr error

  -- `hermes_builder` is the environment variable HERMES_BUILDER; the error of an unknown kind is
  -- given by `unknown_kind`, a format string with the kind.
  unfoldable pub dispatch : (String → String) → Option String → String → J → Call ⊎ String
  dispatch unknown_kind hermes_builder kind payload =
      if str_eq kind "build"
      then build_call hermes_builder (build_from_value payload)
      else if str_eq kind "deploy"
      then deploy_call (deploy_from_value payload)
      else inr (unknown_kind kind)

  -- `SELECT attempts, max_attempts` after an error, and `fail` if the row is still there.
  abbrev fail_reread : Time → Uuid → String → Jobs J → Option (Job J) → Jobs J
  fail_reread now id error jobs none = jobs
  fail_reread now id error jobs (some r) = fail now id r.attempts r.max_attempts error jobs

  abbrev finish : Time → Uuid → Jobs J → Call ⊎ String → Jobs J
  finish now id jobs (inl call) = complete now id jobs
  finish now id jobs (inr error) = fail_reread now id error jobs (find (λ j. j.id == id) jobs)

  abbrev made : Call ⊎ String → Option Call
  made (inl call) = some call
  made (inr error) = none

  abbrev work_claimed :
      (String → String) → Option String → Time → Option (Job J) → Jobs J → Jobs J × Option Call
  work_claimed unknown_kind hermes_builder done none jobs = (jobs, none)
  work_claimed unknown_kind hermes_builder done (some job) jobs =
      let outcome = dispatch unknown_kind hermes_builder job.kind job.payload in
      (finish done job.id jobs outcome, made outcome)

  -- One turn of a worker: a claim at `now`, the call, and its completion at `done`, with no other
  -- statement in between.
  unfoldable pub worker_turn :
      (String → String) → Option String → Time → Time → String → Jobs J → Jobs J × Option Call
  worker_turn unknown_kind hermes_builder now done worker jobs =
      let (job, jobs') = claim_next (λ _. false) now worker jobs in
      work_claimed unknown_kind hermes_builder done job jobs'
