-- ===== src/Limits.antt =====
-- backend/src/utils/limits.rs: the memory and CPU quotas of a workspace, and the requests that they
-- guard in controllers/{app,database,serverless}_controller.rs, each run under the workspace's lock.
-- Columns are integers of any size, and those of limits are never NULL, since every INSERT and UPDATE
-- of the source writes a number.
pub mod Requests
pub mod Memory
pub mod Gaps
pub mod Concurrent
use project_hermes.Base.{
  ℕ, zero, suc, ◌+◌, ◌-◌, ◌*◌, ◌/◌, ◌%◌, ◌^◌, ◌≤◌, ◌<◌, min, max, String, ◌≡◌, refl, sym, ap, ◌∙◌,
  subst, ◌≢◌, ◌↔◌, ◌⊎◌, inl, inr, Bool, true, false, ◌&&◌, ◌||◌, not, Option, none, some, List, [],
  ◌∷◌, ◌++◌, arith, str_eq, str_eq_iff, Uuid, Time, secs, ltb, leb, ◌==◌, if◌then◌else◌, ltb→lt,
  lt→ltb, leb→le, ==_iff, tests, Bool-cases, Option-cases, length, select, count_where, any, find,
  update_where, delete_where, All, map, All-append, All-if, All-update_where, All-delete_where,
  All-find,
}
use project_hermes.Base.Int.{wrap_i64, ℤ, pos, ◌+ℤ◌, ◌*ℤ◌, ltb_ℤ}
use project_hermes.Base.AppError.{
  Piece, text, num, Message, literal, AppError, validation, not_found, Result, ok, err, ◌>>=◌,
  ok_or,
}

-- models/app_model.rs
pub data AppStatus : Type 0 where
  building running stopped failed crashed : AppStatus

-- models/database_model.rs
pub data DbStatus : Type 0 where
  provisioning running stopped failed : DbStatus

pub record App : Type 0 where
  pub id : Uuid
  pub workspace_id : Uuid

pub record AppInstance : Type 0 where
  pub id : Uuid
  pub app_id : Uuid
  pub memory_limit_mb : ℤ
  pub cpu_limit : ℤ
  pub replicas_min : ℤ
  pub replicas_max : ℤ
  pub status : AppStatus

pub record Database : Type 0 where
  pub id : Uuid
  pub workspace_id : Uuid
  pub memory_limit_mb : ℤ
  pub cpu_limit : ℤ
  pub status : DbStatus

pub record ServerlessInstance : Type 0 where
  pub id : Uuid
  pub workspace_id : Uuid
  pub memory_limit_mb : ℤ
  pub status : String

pub record Workspace : Type 0 where
  pub id : Uuid
  pub max_memory_mb : ℤ
  pub max_cpu_millicores : ℤ

pub record Tables : Type 0 where
  pub workspaces : List Workspace
  pub apps : List App
  pub app_instances : List AppInstance
  pub databases : List Database
  pub serverless_instances : List ServerlessInstance

-- status NOT IN ('stopped', 'failed')
abbrev pub app_active : AppStatus → Bool
app_active AppStatus.stopped = false
app_active AppStatus.failed = false
app_active _ = true

abbrev pub db_active : DbStatus → Bool
db_active DbStatus.stopped = false
db_active DbStatus.failed = false
db_active _ = true

abbrev pub fn_active : String → Bool
fn_active status = not (str_eq status "stopped") && not (str_eq status "failed")

-- `id != $2`, which the query has only with a resource to exclude.
abbrev pub is_other : Option Uuid → Uuid → Bool
is_other none id = true
is_other (some e) id = not (id == e)

-- COALESCE(SUM(weight), 0) ... WHERE p, where it is in range; a query with a value out of range fails.
abbrev pub sum_where {ℓ} : {A : Type ℓ} → (A → Bool) → (A → ℤ) → List A → ℤ
sum_where p weight [] = pos 0
sum_where p weight (x ∷ xs) =
    let rest = sum_where p weight xs in if p x then weight x +ℤ rest else rest

-- SELECT EXISTS(... FROM apps WHERE id = $1 AND workspace_id = $2); also what the JOIN of the sums
-- keeps, since the id of an app is its primary key.
abbrev pub owns_app : List App → Uuid → Uuid → Bool
owns_app apps ws app_id = any (λ (a : App). a.id == app_id && a.workspace_id == ws) apps

abbrev pub counts_app : List App → Uuid → Option Uuid → AppInstance → Bool
counts_app apps ws exclude r =
    owns_app apps ws r.app_id && is_other exclude r.id && app_active r.status

abbrev pub counts_db : Uuid → Option Uuid → Database → Bool
counts_db ws exclude r = r.workspace_id == ws && is_other exclude r.id && db_active r.status

abbrev pub counts_fn : Uuid → Option Uuid → ServerlessInstance → Bool
counts_fn ws exclude r = r.workspace_id == ws && is_other exclude r.id && fn_active r.status

-- An app instance counts at full scale-out.
abbrev pub app_memory : AppInstance → ℤ
app_memory r = r.memory_limit_mb *ℤ r.replicas_max

abbrev pub app_cpu : AppInstance → ℤ
app_cpu r = r.cpu_limit *ℤ r.replicas_max

unfoldable pub used_memory : Tables → Uuid → Option Uuid → ℤ
used_memory t ws exclude =
    sum_where (counts_app t.apps ws exclude) app_memory t.app_instances
    +ℤ sum_where (counts_db ws exclude) (λ r. r.memory_limit_mb) t.databases
    +ℤ sum_where (counts_fn ws exclude) (λ r. r.memory_limit_mb) t.serverless_instances

-- Serverless functions have no CPU limit.
unfoldable pub used_cpu : Tables → Uuid → Option Uuid → ℤ
used_cpu t ws exclude =
    sum_where (counts_app t.apps ws exclude) app_cpu t.app_instances
    +ℤ sum_where (counts_db ws exclude) (λ r. r.cpu_limit) t.databases

abbrev pub memory_message : ℤ → ℤ → ℤ → Message
memory_message used max_mem requested =
    text "The total memory allocated in this workspace ("
    ∷ num used
    ∷ text " MB of "
    ∷ num max_mem
    ∷ text " MB) would exceed the maximum allowed limit if this resource ("
    ∷ num requested
    ∷ text " MB) is added. Please increase the workspace's memory limit or stop other resources."
    ∷ []

abbrev pub cpu_message : ℤ → ℤ → ℤ → Message
cpu_message used max_cpu requested =
    text "The total CPU allocated in this workspace ("
    ∷ num used
    ∷ text "m of "
    ∷ num max_cpu
    ∷ text "m) would exceed the maximum limit if this resource ("
    ∷ num requested
    ∷ text "m) is added. Increase the workspace's CPU limit or stop other resources."
    ∷ []

-- The test that both checks end in, on sums of i64 that wrap; a limit of 0 or less is no limit.
abbrev pub within : ℤ → ℤ → ℤ → Message → Result (Unit {0})
within max_value used requested message =
    if ltb_ℤ (pos 0) max_value
    then if ltb_ℤ max_value (wrap_i64 (used +ℤ requested)) then err (validation message) else ok tt
    else ok tt

unfoldable pub check_workspace_memory_limit : Tables → Uuid → ℤ → Option Uuid → Result (Unit {0})
check_workspace_memory_limit t ws requested exclude = do
  w ← ok_or (not_found (literal "Workspace not found.")) (find (λ w. w.id == ws) t.workspaces)
  let used = used_memory t ws exclude
  within w.max_memory_mb used requested (memory_message used w.max_memory_mb requested)

-- The query always excludes: with no resource to exclude, the nil UUID (0 here).
abbrev pub nil_uuid : Uuid
nil_uuid = 0

abbrev pub or_nil : Option Uuid → Uuid
or_nil none = nil_uuid
or_nil (some id) = id

unfoldable pub check_workspace_cpu_limit : Tables → Uuid → ℤ → Option Uuid → Result (Unit {0})
check_workspace_cpu_limit t ws requested exclude = do
  w ← ok_or (not_found (literal "Workspace not found.")) (find (λ w. w.id == ws) t.workspaces)
  let used = used_cpu t ws (some (or_nil exclude))
  within w.max_cpu_millicores used requested (cpu_message used w.max_cpu_millicores requested)
