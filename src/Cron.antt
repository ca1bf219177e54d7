-- ===== src/Cron.antt =====
-- backend/src/utils/cron.rs: the turns of the scheduler, and the execution of a job, which ends in a row
-- of its log. The cron crate's schedules, the answers of Kubernetes, the backup of a database and the
-- signature of a token are arguments.
pub mod Environment
pub mod Logged
pub mod Schedule
pub mod Targets
use project_hermes.Base.{
  ℕ, zero, suc, ◌+◌, ◌-◌, ◌*◌, ◌/◌, ◌%◌, ◌^◌, ◌≤◌, ◌<◌, min, max, String, ◌≡◌, refl, sym, ap, ◌∙◌,
  subst, ◌≢◌, ◌↔◌, ◌⊎◌, inl, inr, Bool, true, false, ◌&&◌, ◌||◌, not, Option, none, some, List, [],
  ◌∷◌, ◌++◌, arith, str_eq, str_eq_iff, Uuid, Time, secs, ltb, leb, ◌==◌, if◌then◌else◌, ltb→lt,
  lt→ltb, leb→le, ==_iff, tests, Bool-cases, Option-cases, length, select, count_where, any, find,
  update_where, delete_where, All, map, All-append, All-if, All-update_where, All-delete_where,
  All-find,
}
use Prim.Native.String
use project_hermes.Base.Int.{ℤ}
use project_hermes.Base.Assoc.{HashMap, insert}
use project_hermes.AppEnv.{finalize}

-- A row of cron_jobs.
pub record CronJob : Type 0 where
  pub id : Uuid
  pub workspace_id : Uuid
  pub target_type : String
  pub target_id : Option Uuid
  pub is_backup : Bool
  pub schedule : String
  pub command : String
  pub active : Bool
  pub next_run_at : Option Time
  pub updated_at : Time

abbrev pub has_come : Time → Option Time → Bool
has_come now none = false
has_come now (some t) = leb t now

-- `status = 'active' AND next_run_at <= $1`
abbrev pub is_due : Time → CronJob → Bool
is_due now j = j.active && has_come now j.next_run_at

abbrev pub moved : Time → Option Time → CronJob → CronJob
moved now next j = record j { next_run_at = next; updated_at = now }

-- A schedule that can be read gives its next time after a given one.
abbrev pub Schedules : Type 0
Schedules = String → Option (Time → Option Time)

-- `updates` tells for each job that its UPDATE is answered; its error is ignored.
module _ (parse : Schedules) (updates : Uuid → Bool) (now : Time) where
  abbrev pub advance_to : Bool → Option (Time → Option Time) → Uuid → List CronJob → List CronJob
  advance_to answered none id jobs = jobs
  advance_to false (some upcoming) id jobs = jobs
  advance_to true (some upcoming) id jobs =
      update_where (λ (j : CronJob). j.id == id) (moved now (upcoming now)) jobs

  -- The jobs that are due, one after the other.
  abbrev pub advance_all : List CronJob → List CronJob → List CronJob
  advance_all [] jobs = jobs
  advance_all (d ∷ due) jobs =
      advance_all due (advance_to (updates d.id) (parse d.schedule) d.id jobs)

  abbrev pub executable : Bool → List CronJob → List CronJob
  executable true due = due
  executable false due = []

  -- The table after a turn, and the jobs that it executes; the flag is that the query is answered.
  unfoldable pub scheduler_turn : Bool → List CronJob → List CronJob × List CronJob
  scheduler_turn read jobs =
      let due = executable read (select (is_due now) jobs) in (advance_all due jobs, due)

-- A row of cron_job_logs.
pub record CronJobLog : Type 0 where
  pub id : Uuid
  pub cron_job_id : Uuid
  pub exit_code : ℤ
  pub output : String
  pub started_at : Time
  pub finished_at : Time

-- An execution: its job, the id of its log, its times, and that the INSERT is answered.
pub record Execution : Type 0 where
  pub job_id : Uuid
  pub workspace_id : Uuid
  pub log_id : Uuid
  pub started_at : Time
  pub finished_at : Time
  pub inserts : Bool

abbrev pub Logs : Type 0
Logs = List CronJobLog

unfoldable pub log_cron : Execution → ℤ → String → Logs → Logs
log_cron x exit_code output logs =
    if x.inserts
    then logs
      ++ record {
        id = x.log_id;
        cron_job_id = x.job_id;
        exit_code = exit_code;
        output = output;
        started_at = x.started_at;
        finished_at = x.finished_at;
      }
        ∷ []
    else logs

-- `return Err(())` after an entry with the exit code 1.
abbrev pub log_failure : Execution → String → Logs → Logs × Bool
log_failure x output logs = (log_cron x (ℤ.pos 1) output logs, false)

-- What a Kubernetes job comes to: no client, output with an exit code, or an error.
pub data JobAnswer : Type 0 where
  no_client : String → JobAnswer
  ran : String → ℤ → JobAnswer
  not_run : String → JobAnswer

-- The flag is that the result is `Ok`.
unfoldable pub run_k8s_job : Execution → JobAnswer → Logs → Logs × Bool
run_k8s_job x (JobAnswer.no_client e) logs =
    log_failure x (String.◌++◌ "Kubernetes connection error: " e) logs
run_k8s_job x (JobAnswer.ran output exit_code) logs = (log_cron x exit_code output logs, true)
run_k8s_job x (JobAnswer.not_run e) logs =
    log_failure x (String.◌++◌ "Error running the container in Kubernetes: " e) logs

abbrev pub insert_pairs : List (String × String) → HashMap String → HashMap String
insert_pairs [] map = map
insert_pairs ((k, v) ∷ pairs) map = insert_pairs pairs (insert k v map)

unfoldable pub merge_env : List (String × String) → List (String × String) → List (String × String)
merge_env base extra = finalize (insert_pairs extra (insert_pairs base []))
