-- ===== src/Limits/Requests.antt =====
-- The quota-sensitive part of the handlers: `create_branch_instance` and `update_instance_settings` of
-- backend/src/controllers/app_controller.rs, `create_database` and `update_database_settings` of
-- database_controller.rs, `create_instance` of serverless_controller.rs. Each is the lookups, the
-- checks and the write of the row, which the workspace's lock keeps together, for a caller with the
-- active workspace `ws`. Columns of the row without a quota, the ports, and the jobs and events that
-- follow are left out.
use project_hermes.Base.{
  Bool, true, any, ◌&&◌, ◌||◌, not, Option, none, some, ◌∷◌, Uuid, ◌==◌, if◌then◌else◌, find,
  update_where,
}
use project_hermes.Base.Int.{wrap_i64, wrap_i32, unwrap_or, max_ℤ, ℤ, pos, ◌*ℤ◌, ltb_ℤ}
use project_hermes.Base.AppError.{
  Result, ok, ◌>>=◌, ◌>>◌, guard, ok_or, literal, validation, not_found,
}
use project_hermes.Limits.{
  AppStatus, DbStatus, AppInstance, owns_app, Database, Tables, check_workspace_memory_limit,
  check_workspace_cpu_limit,
}

-- `if value > 0 { check }`
abbrev pub if_positive : ℤ → Result (Unit {0}) → Result (Unit {0})
if_positive value check = if ltb_ℤ (pos 0) value then check else ok tt

-- The replica range: min >= 1, max >= min.
abbrev pub range_min : Option ℤ → ℤ
range_min replicas_min = max_ℤ (unwrap_or (pos 1) replicas_min) (pos 1)

abbrev pub range_max : Option ℤ → Option ℤ → ℤ
range_max replicas_min replicas_max =
    max_ℤ (unwrap_or (range_min replicas_min) replicas_max) (range_min replicas_min)

unfoldable pub create_branch_instance :
    Tables → Uuid → Uuid → Uuid → Option ℤ → Option ℤ → Option ℤ → Option ℤ → Result Tables
create_branch_instance t ws app_id id memory_limit_mb cpu_limit replicas_min replicas_max = do
  guard (owns_app t.apps ws app_id) (not_found (literal "Parent application not found."))
  let memory = unwrap_or (pos 0) memory_limit_mb
  let cpu = unwrap_or (pos 0) cpu_limit
  let replicas = range_max replicas_min replicas_max
  if_positive memory (check_workspace_memory_limit t ws (wrap_i64 (memory *ℤ replicas)) none)
  if_positive cpu (check_workspace_cpu_limit t ws (wrap_i32 (cpu *ℤ replicas)) none)
  ok (record t {
    app_instances =
        record {
          id = id;
          app_id = app_id;
          memory_limit_mb = memory;
          cpu_limit = cpu;
          replicas_min = range_min replicas_min;
          replicas_max = replicas;
          status = AppStatus.building;
        }
        ∷ t.app_instances;
  })

-- COALESCE($1, column)
abbrev pub coalesce : Option ℤ → ℤ → ℤ
coalesce none old = old
coalesce (some new) old = new

abbrev pub if_some_positive : Option ℤ → (ℤ → Result (Unit {0})) → Result (Unit {0})
if_some_positive none check = ok tt
if_some_positive (some value) check = if_positive value (check value)

-- The range is tested only where both bounds are given.
abbrev pub valid_range : Option ℤ → Option ℤ → Bool
valid_range (some mn) (some mx) = not (ltb_ℤ mn (pos 1) || ltb_ℤ mx mn)
valid_range none _ = true
valid_range (some mn) none = true

-- The UPDATE of the instance's row.
abbrev pub with_settings : Option ℤ → Option ℤ → Option ℤ → Option ℤ → AppInstance → AppInstance
with_settings memory cpu replicas_min replicas_max r = record r {
  memory_limit_mb = coalesce memory r.memory_limit_mb;
  cpu_limit = coalesce cpu r.cpu_limit;
  replicas_min = coalesce replicas_min r.replicas_min;
  replicas_max = coalesce replicas_max r.replicas_max;
  status = AppStatus.building;
}

unfoldable pub update_instance_settings :
    Tables → Uuid → Uuid → Uuid → Option ℤ → Option ℤ → Option ℤ → Option ℤ → Result Tables
update_instance_settings t ws app_id id memory cpu replicas_min replicas_max = do
  guard (owns_app t.apps ws app_id) (not_found (literal "Application not found in this workspace."))
  guard (any (λ (r : AppInstance). r.id == id && r.app_id == app_id) t.app_instances)
      (not_found (literal "Application instance not found."))
  if_some_positive memory (λ m. check_workspace_memory_limit t ws m (some id))
  if_some_positive cpu (λ c. check_workspace_cpu_limit t ws c (some id))
  guard (valid_range replicas_min replicas_max)
      (validation (literal "Replica range invalid: min must be >= 1 and max >= min."))
  ok (record t {
    app_instances =
        update_where (λ r. r.id == id) (with_settings memory cpu replicas_min replicas_max)
          t.app_instances;
  })

-- `filter(|&c| c > 0).unwrap_or(0)` is tested, and the value as given is stored.
unfoldable pub create_database : Tables → Uuid → Uuid → ℤ → ℤ → Result Tables
create_database t ws id memory cpu = do
  if_positive memory (check_workspace_memory_limit t ws memory none)
  if_positive cpu (check_workspace_cpu_limit t ws cpu none)
  ok (record t {
    databases =
        record {
          id = id;
          workspace_id = ws;
          memory_limit_mb = memory;
          cpu_limit = cpu;
          status = DbStatus.provisioning;
        }
        ∷ t.databases;
  })

abbrev pub with_limits : ℤ → ℤ → Database → Database
with_limits memory cpu r = record r { memory_limit_mb = memory; cpu_limit = cpu }

unfoldable pub update_database_settings : Tables → Uuid → Uuid → ℤ → ℤ → Result Tables
update_database_settings t ws id memory cpu = do
  _ ←
      ok_or (not_found (literal "Database service not found."))
        (find (λ r. r.id == id && r.workspace_id == ws) t.databases)
  check_workspace_memory_limit t ws memory (some id)
  if_positive cpu (check_workspace_cpu_limit t ws cpu (some id))
  ok (record t { databases = update_where (λ r. r.id == id) (with_limits memory cpu) t.databases })

-- `name_is_valid` is that the slug of the name is not empty.
unfoldable pub create_instance : Tables → Uuid → Uuid → Bool → ℤ → Result Tables
create_instance t ws id name_is_valid memory = do
  guard name_is_valid (validation (literal "The instance name is invalid."))
  check_workspace_memory_limit t ws memory none
  ok (record t {
    serverless_instances =
        record { id = id; workspace_id = ws; memory_limit_mb = memory; status = "draft" }
        ∷ t.serverless_instances;
  })
