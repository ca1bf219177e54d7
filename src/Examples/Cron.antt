-- ===== src/Examples/Cron.antt =====
-- The cron jobs (backend/src/utils/cron.rs) at concrete inputs.
use project_hermes.Base.{
  ◌+◌, String, ◌≡◌, refl, sym, subst, inr, true, false, Option, none, some, List, [], ◌∷◌, arith,
  Uuid, Time, secs, All,
}
use project_hermes.Base.Int.{ℤ}
use project_hermes.Base.Assoc.{lookup, insert}
use project_hermes.AppEnv.{
  EnvVariable, finalize, insert_rows, resolve_instance_env, resolve_cron_env,
}
use project_hermes.Cron.{CronJob, Schedules, Execution, JobAnswer, merge_env, scheduler_turn}
use project_hermes.Cron.Targets.{
  CronInstance, Calls, CronDb, app_cron_env, extra_env, execute_cron_job,
}
use project_hermes.Cron.Schedule.{IsUpcoming, IsDone, scheduler_turn-IsDone}
use project_hermes.Cron.Logged.{IsLogged, execute_cron_job-IsLogged}
use project_hermes.Cron.Environment.{app_cron_env-lookup}

-- A schedule of every minute.
abbrev every_minute : Schedules
every_minute schedule = some (λ now. some (now + secs 60))

later_minute : IsUpcoming every_minute
later_minute schedule upcoming now t read next =
    let same : (λ (n : Time). some (n + secs 60)) ≡ upcoming = some_function read in
    let next' : some (now + secs 60) ≡ some t = subst (λ f. f now ≡ some t) (sym same) next in
    let equal : now + secs 60 ≡ t = cc in omega arith
  where
    some_function : {f g : Time → Option Time} → some f ≡ some g → f ≡ g
    some_function e = cc

abbrev job : Uuid → Option Time → CronJob
job id next = record {
  id = id;
  workspace_id = 1;
  target_type = "app";
  target_id = some 7;
  is_backup = false;
  schedule = "0 * * * * *";
  command = "php cron.php";
  active = true;
  next_run_at = next;
  updated_at = 0;
}

abbrev three_jobs : List CronJob
three_jobs = job 1 (some (secs 10)) ∷ job 2 none ∷ job 3 (some (secs 90)) ∷ []

turned : scheduler_turn every_minute (λ id. true) (secs 30) true three_jobs ≡ (
  record (job 1 (some (secs 90))) { updated_at = secs 30 }
      ∷ job 2 none
      ∷ job 3 (some (secs 90))
      ∷ [],
  job 1 (some (secs 10)) ∷ [],
)
unfolding scheduler_turn
turned = refl

scheduler_turn-IsDone_example :
    All
      (IsDone every_minute later_minute (λ id. true) (secs 30))
      (scheduler_turn every_minute (λ id. true) (secs 30) true three_jobs).0
scheduler_turn-IsDone_example =
    scheduler_turn-IsDone every_minute later_minute (λ id. true) (secs 30) three_jobs
      (
        (λ now. some (now + secs 60), refl),
        ((λ now. some (now + secs 60), refl), ((λ now. some (now + secs 60), refl), tt)),
      )

abbrev calls : Calls
calls = record {
  decrypt = λ enc nonce. some enc;
  image_of = λ id. "registry:5000/hermes-app-image:1";
  run_job = λ namespace image env command. JobAnswer.ran "done" (ℤ.pos 0);
  backup = λ id command. inr "no space";
  encode = λ claims. "token";
  text = λ id. "1";
  base_domain = "example.org";
}

abbrev own_variable : Uuid → String → String → EnvVariable
own_variable owner key value = record {
  owner_id = owner;
  key = key;
  encrypted_value = value;
  nonce = "";
  is_secret = false;
}

abbrev tables : CronDb
tables = record {
  env = record {
    project_env_variables = [];
    app_env_links = [];
    environment_variables = own_variable 5 "MODE" "web" ∷ own_variable 5 "PORT" "80" ∷ [];
    cron_env_links = [];
    cron_env_variables = own_variable 9 "MODE" "cron" ∷ [];
  };
  instances =
      record { id = 4; app_id = 7; instance_type = "preview" }
      ∷ record { id = 5; app_id = 7; instance_type = "production" }
      ∷ [];
  databases = [];
  buckets = [];
}

abbrev execution : Execution
execution = record {
  job_id = 9;
  workspace_id = 1;
  log_id = 100;
  started_at = secs 30;
  finished_at = secs 31;
  inserts = true;
}

abbrev production : CronInstance
production = record { id = 5; app_id = 7; instance_type = "production" }

environment :
    app_cron_env calls tables execution "php cron.php" production
      (extra_env calls tables execution "php cron.php")
    ≡ ("MODE", "cron") ∷ ("PORT", "80") ∷ []
unfolding merge_env resolve_instance_env resolve_cron_env finalize insert_rows insert
environment = refl

app_cron_env-lookup_example :
    lookup "MODE" (
      app_cron_env calls tables execution "php cron.php" production
        (extra_env calls tables execution "php cron.php"))
    ≡ some "cron"
app_cron_env-lookup_example =
    app_cron_env-lookup calls tables execution "php cron.php" "MODE" production

execute_cron_job-IsLogged_example :
    IsLogged execution []
      (execute_cron_job calls tables execution "php cron.php" "database" (some 7) true [])
execute_cron_job-IsLogged_example =
    execute_cron_job-IsLogged execution refl calls tables "php cron.php" "database" (some 7) true []
