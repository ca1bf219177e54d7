-- ===== src/Cron/Logged.antt =====
-- The log of an execution (backend/src/utils/cron.rs).
use project_hermes.Base.{
  ℕ, String, ◌≡◌, refl, ap, ◌⊎◌, inl, inr, Bool, true, false, ◌&&◌, Option, none, some, List, [],
  ◌∷◌, ◌++◌, arith, str_eq, Uuid, ◌==◌, if◌then◌else◌, find,
}
use project_hermes.Base.Int.{ℤ, pos_part}
use project_hermes.Cron.{CronJobLog, Execution, Logs, log_cron, log_failure, JobAnswer, run_k8s_job}
use project_hermes.Cron.Targets.{
  Calls, CronDb, CronInstance, DatabaseService, StorageBucket, best_instance, on_instance,
  run_app_cron, on_database, run_database_cron, on_bucket, run_storage_cron, backed_up, extra_env,
  by_type, execute_cron_job,
}

module _ (x : Execution) where
  -- One entry for the job; one of a failure has the exit code 1, and one of the code 0 is no failure.
  abbrev pub IsLogged : Logs → Logs × Bool → Type 0
  IsLogged logs result =
      (log : CronJobLog) × (result.0 ≡ logs ++ log ∷ [])
      × (log.cron_job_id ≡ x.job_id)
      × (result.1 ≡ false → log.exit_code ≡ ℤ.pos 1)
      × (log.exit_code ≡ ℤ.pos 0 → result.1 ≡ true)

module _ (x : Execution) (inserts : x.inserts ≡ true) where
  abbrev entry : ℤ → String → CronJobLog
  entry exit_code output = record {
    id = x.log_id;
    cron_job_id = x.job_id;
    exit_code = exit_code;
    output = output;
    started_at = x.started_at;
    finished_at = x.finished_at;
  }

  log_cron-entry :
      (exit_code : ℤ) (output : String) (logs : Logs)
      → log_cron x exit_code output logs ≡ logs ++ entry exit_code output ∷ []
  unfolding log_cron
  log_cron-entry exit_code output logs = rw inserts refl

  one_not_zero : ℤ.pos 1 ≡ ℤ.pos 0 → ⊥
  one_not_zero e = differ (pos_part (ℤ.pos 1)) (pos_part (ℤ.pos 0)) (ap pos_part e) refl refl
    where
      differ : (a b : ℕ) → a ≡ b → a ≡ 1 → b ≡ 0 → ⊥
      differ a b same one none_left = omega arith

  log_failure-IsLogged :
      (output : String) (logs : Logs) → IsLogged x logs (log_failure x output logs)
  log_failure-IsLogged output logs = (
    entry (ℤ.pos 1) output,
    log_cron-entry (ℤ.pos 1) output logs,
    refl,
    λ e. refl,
    λ e. absurd (one_not_zero e),
  )

  success-IsLogged :
      (exit_code : ℤ) (output : String) (logs : Logs)
      → IsLogged x logs (log_cron x exit_code output logs, true)
  success-IsLogged exit_code output logs = (
    entry exit_code output,
    log_cron-entry exit_code output logs,
    refl,
    λ e. absurd (cc),
    λ e. refl,
  )

  run_k8s_job-IsLogged : (a : JobAnswer) (logs : Logs) → IsLogged x logs (run_k8s_job x a logs)
  unfolding run_k8s_job
  run_k8s_job-IsLogged (JobAnswer.no_client e) logs = log_failure-IsLogged _ logs
  run_k8s_job-IsLogged (JobAnswer.ran output exit_code) logs =
      success-IsLogged exit_code output logs
  run_k8s_job-IsLogged (JobAnswer.not_run e) logs = log_failure-IsLogged _ logs

  module _ (c : Calls) (d : CronDb) (command : String) where
    on_instance-IsLogged :
        (o : Option CronInstance) (extra : List (String × String)) (logs : Logs)
        → IsLogged x logs (on_instance c d x command o extra logs)
    on_instance-IsLogged none extra logs = log_failure-IsLogged _ logs
    on_instance-IsLogged (some i) extra logs = run_k8s_job-IsLogged _ logs

    on_database-IsLogged :
        (o : Option DatabaseService) (extra : List (String × String)) (logs : Logs)
        → IsLogged x logs (on_database c d x command o extra logs)
    on_database-IsLogged none extra logs = log_failure-IsLogged _ logs
    on_database-IsLogged (some db) extra logs = run_k8s_job-IsLogged _ logs

    on_bucket-IsLogged :
        (o : Option StorageBucket) (extra : List (String × String)) (logs : Logs)
        → IsLogged x logs (on_bucket c d x command o extra logs)
    on_bucket-IsLogged none extra logs = log_failure-IsLogged _ logs
    on_bucket-IsLogged (some b) extra logs = run_k8s_job-IsLogged _ logs

    backed_up-IsLogged :
        (outcome : String ⊎ String) (logs : Logs)
        → IsLogged x logs (backed_up c d x command outcome logs)
    backed_up-IsLogged (inl message) logs = success-IsLogged (ℤ.pos 0) message logs
    backed_up-IsLogged (inr e) logs = log_failure-IsLogged _ logs

    if-IsLogged :
        (b : Bool) (logs : Logs) (yes_case no_case : Logs × Bool)
        → IsLogged x logs yes_case
        → IsLogged x logs no_case
        → IsLogged x logs (if b then yes_case else no_case)
    if-IsLogged true logs yes_case no_case h k = h
    if-IsLogged false logs yes_case no_case h k = k

    by_type-IsLogged :
        (target_type : String) (is_backup : Bool) (target_id : Uuid) (logs : Logs)
        → IsLogged x logs (by_type c d x command target_type is_backup target_id logs)
    unfolding run_app_cron run_database_cron run_storage_cron
    by_type-IsLogged target_type is_backup target_id logs =
        let extra = extra_env c d x command in
        if-IsLogged (str_eq target_type "database" && is_backup) logs _ _
          (backed_up-IsLogged (c.backup target_id command) logs)
          (if-IsLogged (str_eq target_type "app") logs _ _
            (on_instance-IsLogged (best_instance target_id d.instances) extra logs)
            (if-IsLogged (str_eq target_type "database") logs _ _
              (on_database-IsLogged
                (find (λ (db : DatabaseService). db.id == target_id) d.databases) extra logs)
              (if-IsLogged (str_eq target_type "storage") logs _ _
                (on_bucket-IsLogged (find (λ (b : StorageBucket). b.id == target_id) d.buckets)
                  extra logs)
                (log_failure-IsLogged _ logs))))

    -- An execution of a job adds exactly one entry to the log, and it is one of that job, whatever
    -- its target, what the tables hold and what the cluster and the backup answer: an execution
    -- that fails has the exit code 1, and one with the exit code 0 does not fail, if the INSERT of
    -- the log is answered.
    pub execute_cron_job-IsLogged :
        (target_type : String) (target_id : Option Uuid) (is_backup : Bool) (logs : Logs)
        → IsLogged x logs (execute_cron_job c d x command target_type target_id is_backup logs)
    unfolding execute_cron_job
    execute_cron_job-IsLogged target_type none is_backup logs = log_failure-IsLogged _ logs
    execute_cron_job-IsLogged target_type (some target_id) is_backup logs =
        by_type-IsLogged target_type is_backup target_id logs
