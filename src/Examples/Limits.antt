-- ===== src/Examples/Limits.antt =====
-- Quotas of backend/src/utils/limits.rs at concrete inputs.
use project_hermes.Base.{◌^◌, ◌≡◌, refl, true, none, some, [], ◌∷◌, arith}
use project_hermes.Base.Int.{wrap_i64, wrap_i32, pos, ◌+ℤ◌, ◌*ℤ◌, ltb_ℤ}
use project_hermes.Base.AppError.{ok}
use project_hermes.Limits.{
  AppStatus, DbStatus, AppInstance, Database, Workspace, App, Tables, used_memory, used_cpu,
  check_workspace_memory_limit, check_workspace_cpu_limit,
}
use project_hermes.Limits.Gaps.{alone, update_instance_settings-used_memory}
use project_hermes.Limits.Memory.{HasLimit}
use project_hermes.Limits.Requests.{
  create_branch_instance, create_database, create_instance, update_database_settings,
  update_instance_settings,
}

abbrev pub workspace : Workspace
workspace = record { id = 1; max_memory_mb = pos 1000; max_cpu_millicores = pos 2000 }

abbrev pub shop : App
shop = record { id = 3; workspace_id = 1 }

abbrev pub app : AppInstance
app = record {
  id = 5;
  app_id = 3;
  memory_limit_mb = pos 100;
  cpu_limit = pos 250;
  replicas_min = pos 1;
  replicas_max = pos 3;
  status = AppStatus.running;
}

abbrev pub postgres : Database
postgres = record {
  id = 6;
  workspace_id = 1;
  memory_limit_mb = pos 200;
  cpu_limit = pos 500;
  status = DbStatus.running;
}

abbrev pub tables : Tables
tables = record {
  workspaces = workspace ∷ [];
  apps = shop ∷ [];
  app_instances = app ∷ [];
  databases = postgres ∷ [];
  serverless_instances = [];
}

pub tables-HasLimit : HasLimit tables 1 workspace
tables-HasLimit = record { found = refl; limited = refl; column = omega arith }

-- 100 MB at three replicas and 200 MB of the database.
tables_memory : used_memory tables 1 none ≡ pos 500
unfolding used_memory ◌+ℤ◌ ◌*ℤ◌ wrap_i64 wrap_i32
tables_memory = refl

abbrev after_app : Tables
after_app = record tables {
  app_instances =
      record {
        id = 9;
        app_id = 3;
        memory_limit_mb = pos 125;
        cpu_limit = pos 150;
        replicas_min = pos 2;
        replicas_max = pos 4;
        status = AppStatus.building;
      }
      ∷ app
      ∷ [];
}

app_created :
    create_branch_instance tables 1 3 9
      (some (pos 125))
      (some (pos 150))
      (some (pos 2))
      (some (pos 4))
    ≡ ok after_app
unfolding create_branch_instance check_workspace_memory_limit check_workspace_cpu_limit used_memory
    used_cpu ◌+ℤ◌ ◌*ℤ◌ wrap_i64 wrap_i32
app_created = refl

abbrev pub after_database : Tables
after_database = record tables {
  databases =
      record {
        id = 9;
        workspace_id = 1;
        memory_limit_mb = pos 500;
        cpu_limit = pos 0;
        status = DbStatus.provisioning;
      }
      ∷ postgres
      ∷ [];
}

database_created : create_database tables 1 9 (pos 500) (pos 0) ≡ ok after_database
unfolding create_database check_workspace_memory_limit check_workspace_cpu_limit used_memory
    used_cpu ◌+ℤ◌ ◌*ℤ◌ wrap_i64 wrap_i32
database_created = refl

abbrev after_function : Tables
after_function = record tables {
  serverless_instances =
      record { id = 9; workspace_id = 1; memory_limit_mb = pos 128; status = "draft" } ∷ [];
}

function_created : create_instance tables 1 9 true (pos 128) ≡ ok after_function
unfolding create_instance check_workspace_memory_limit used_memory ◌+ℤ◌ ◌*ℤ◌ wrap_i64 wrap_i32
function_created = refl

abbrev after_settings : Tables
after_settings = record tables {
  databases = record postgres { memory_limit_mb = pos 700; cpu_limit = pos 100 } ∷ [];
}

settings_updated : update_database_settings tables 1 6 (pos 700) (pos 100) ≡ ok after_settings
unfolding update_database_settings check_workspace_memory_limit check_workspace_cpu_limit
    used_memory used_cpu ◌+ℤ◌ ◌*ℤ◌ wrap_i64 wrap_i32
settings_updated = refl

update_instance_settings-used_memory_example :
    (t : Tables) × (update_instance_settings
        (alone workspace shop app)
        1
        3
        5
        (some (pos 400))
        none
        none
        none
      ≡ ok t)
    × (ltb_ℤ (pos 1000) (used_memory t 1 none) ≡ true)
update_instance_settings-used_memory_example =
    update_instance_settings-used_memory workspace shop app (pos 400) refl refl refl (omega arith)
      (unfold ◌*ℤ◌ in refl)

-- 2^62 MB at four replicas is a request of nothing.
product_wraps : wrap_i64 (pos (2 ^ 62) *ℤ pos 4) ≡ pos 0
unfolding wrap_i64 ◌*ℤ◌
product_wraps = refl
