-- ===== src/Limits/Concurrent.antt =====
-- The creations of backend/src/controllers that hold the workspace's lock of backend/src/utils/locks.rs
-- (`create_branch_instance`, `create_database`, `create_instance`), as handlers of any number of
-- replicas whose steps interleave. A handler is numbered by the connection that is pinned for its
-- lock. Other statements are those that raise the memory of no workspace.
pub mod Room
pub mod Ready
pub mod Exclusive
pub mod Quota
use project_hermes.Base.{
  ℕ, zero, suc, ◌+◌, ◌-◌, ◌*◌, ◌/◌, ◌%◌, ◌^◌, ◌≤◌, ◌<◌, min, max, String, ◌≡◌, refl, sym, ap, ◌∙◌,
  subst, ◌≢◌, ◌↔◌, ◌⊎◌, inl, inr, Bool, true, false, ◌&&◌, ◌||◌, not, Option, none, some, List, [],
  ◌∷◌, ◌++◌, arith, str_eq, str_eq_iff, Uuid, Time, secs, ltb, leb, ◌==◌, if◌then◌else◌, ltb→lt,
  lt→ltb, leb→le, ==_iff, tests, Bool-cases, Option-cases, length, select, count_where, any, find,
  update_where, delete_where, All, map, All-append, All-if, All-update_where, All-delete_where,
  All-find,
}
use project_hermes.Base.Int.{wrap_i64, wrap_i32, ℤ, pos, ◌+ℤ◌, ◌*ℤ◌, ◌≤ℤ◌, unwrap_or}
use project_hermes.Base.AppError.{
  Result, ok, err, ◌>>=◌, ◌>>◌, guard, literal, validation, not_found,
}
use project_hermes.Limits.{
  AppStatus, DbStatus, Tables, owns_app, used_memory, check_workspace_memory_limit,
  check_workspace_cpu_limit,
}
use project_hermes.Limits.Requests.{
  if_positive, range_min, range_max, create_branch_instance, create_database, create_instance,
}
use project_hermes.Locks.WorkspaceLock.{WorkspaceLock, granted, acquire_workspace_lock, drop_lock}

pub data Request : Type 0 where
  branch : Uuid → Uuid → Option ℤ → Option ℤ → Option ℤ → Option ℤ → Request
  database : Uuid → ℤ → ℤ → Request
  function : Uuid → Bool → ℤ → Request

-- What a handler reads before it writes.
unfoldable pub checks : Tables → Uuid → Request → Result (Unit {0})
checks t ws (branch app_id id memory_limit_mb cpu_limit replicas_min replicas_max) = do
  guard (owns_app t.apps ws app_id) (not_found (literal "Parent application not found."))
  let memory = unwrap_or (pos 0) memory_limit_mb
  let cpu = unwrap_or (pos 0) cpu_limit
  let replicas = range_max replicas_min replicas_max
  if_positive memory (check_workspace_memory_limit t ws (wrap_i64 (memory *ℤ replicas)) none)
  if_positive cpu (check_workspace_cpu_limit t ws (wrap_i32 (cpu *ℤ replicas)) none)
checks t ws (database id memory cpu) = do
  if_positive memory (check_workspace_memory_limit t ws memory none)
  if_positive cpu (check_workspace_cpu_limit t ws cpu none)
checks t ws (function id name_is_valid memory) = do
  guard name_is_valid (validation (literal "The instance name is invalid."))
  check_workspace_memory_limit t ws memory none

-- The INSERT.
unfoldable pub write : Tables → Uuid → Request → Tables
write t ws (branch app_id id memory_limit_mb cpu_limit replicas_min replicas_max) = record t {
  app_instances =
      record {
        id = id;
        app_id = app_id;
        memory_limit_mb = unwrap_or (pos 0) memory_limit_mb;
        cpu_limit = unwrap_or (pos 0) cpu_limit;
        replicas_min = range_min replicas_min;
        replicas_max = range_max replicas_min replicas_max;
        status = AppStatus.building;
      }
      ∷ t.app_instances;
}
write t ws (database id memory cpu) = record t {
  databases =
      record {
        id = id;
        workspace_id = ws;
        memory_limit_mb = memory;
        cpu_limit = cpu;
        status = DbStatus.provisioning;
      }
      ∷ t.databases;
}
write t ws (function id name_is_valid memory) = record t {
  serverless_instances =
      record { id = id; workspace_id = ws; memory_limit_mb = memory; status = "draft" }
      ∷ t.serverless_instances;
}

-- A handler that runs alone is its checks and then its write.
abbrev pub handler : Tables → Uuid → Request → Result Tables
handler t ws (branch app_id id memory cpu replicas_min replicas_max) =
    create_branch_instance t ws app_id id memory cpu replicas_min replicas_max
handler t ws (database id memory cpu) = create_database t ws id memory cpu
handler t ws (function id name_is_valid memory) = create_instance t ws id name_is_valid memory

then_assoc : (p q : Result (Unit {0})) (m : Result Tables) → (p >> (q >> m)) ≡ ((p >> q) >> m)
then_assoc (ok _) q m = refl
then_assoc (err e) q m = refl

then_assoc_three :
    (p q r : Result (Unit {0})) (m : Result Tables)
    → (p >> (q >> (r >> m))) ≡ ((p >> (q >> r)) >> m)
then_assoc_three (ok _) q r m = then_assoc q r m
then_assoc_three (err e) q r m = refl

pub data Phase : Type 0 where
  idle : Phase
  holding : Uuid → Request → WorkspaceLock → Phase
  checked : Uuid → Request → WorkspaceLock → Phase
  dropped : Uuid → WorkspaceLock → Phase

abbrev pub set_phase : (ℕ → Phase) → ℕ → Phase → ℕ → Phase
set_phase phase i p j = if i == j then p else phase j

pub record System : Type 0 where
  pub tables : Tables
  pub locks : List WorkspaceLock
  pub phase : ℕ → Phase

-- The memory that the new row is counted with, at full scale-out.
abbrev pub requested : Request → ℤ
requested (branch app_id id memory cpu replicas_min replicas_max) =
    unwrap_or (pos 0) memory *ℤ range_max replicas_min replicas_max
requested (database id memory cpu) = memory
requested (function id name_is_valid memory) = memory

module _ (as_bytes : Uuid → List ℕ) (owner : Uuid → Uuid) where
  -- The workspace of an app never changes: no statement of the source writes it.
  abbrev pub IsOwner : Tables → Type 0
  IsOwner t = (ws app_id : Uuid) → owns_app t.apps ws app_id ≡ true → owner app_id ≡ ws

-- `sends` tells the requests that clients send.
module _ (as_bytes : Uuid → List ℕ) (owner : Uuid → Uuid) (sends : Request → Bool) where
  pub data Step (s : System) : System → Type 0 where
    acquire :
        (i : ℕ) (ws : Uuid) (r : Request) {lock : WorkspaceLock} {locks : List WorkspaceLock}
        → sends r ≡ true
        → s.phase i ≡ idle
        → acquire_workspace_lock as_bytes (inr i) none ws s.locks ≡ granted lock locks
        → Step s (record s { locks = locks; phase = set_phase s.phase i (holding ws r lock) })
    check :
        (i : ℕ) {ws : Uuid} {r : Request} {lock : WorkspaceLock}
        → s.phase i ≡ holding ws r lock
        → checks s.tables ws r ≡ ok tt
        → Step s (record s { phase = set_phase s.phase i (checked ws r lock) })
    refuse :
        (i : ℕ) {ws : Uuid} {r : Request} {lock : WorkspaceLock}
        → s.phase i ≡ holding ws r lock
        → Step s (record s { phase = set_phase s.phase i (dropped ws lock) })
    commit :
        (i : ℕ) {ws : Uuid} {r : Request} {lock : WorkspaceLock}
        → s.phase i ≡ checked ws r lock
        → Step s (record s {
          tables = write s.tables ws r;
          phase = set_phase s.phase i (dropped ws lock);
        })
    unlock :
        (i : ℕ) {ws : Uuid} {lock : WorkspaceLock}
        → s.phase i ≡ dropped ws lock
        → Step s (record s { locks = drop_lock lock s.locks; phase = set_phase s.phase i idle })
    other :
        (t : Tables)
        → t.workspaces ≡ s.tables.workspaces
        → IsOwner as_bytes owner t
        → ((ws : Uuid) → used_memory t ws none ≤ℤ used_memory s.tables ws none)
        → Step s (record s { tables = t })

  pub data Reach (t : Tables) : System → Type 0 where
    start : Reach t (record { tables = t; locks = []; phase = λ _. idle })
    next : {s u : System} → Reach t s → Step s u → Reach t u

-- Each handler is the checks and, if they pass, the write.
pub handler-checks :
    (t : Tables) (ws : Uuid) (r : Request) → handler t ws r ≡ (checks t ws r >> ok (write t ws r))
unfolding create_branch_instance create_database create_instance checks write
handler-checks t ws (branch app_id id memory cpu replicas_min replicas_max) =
    let replicas = range_max replicas_min replicas_max in
    let memory_check =
      if_positive (unwrap_or (pos 0) memory) (
        check_workspace_memory_limit t ws (wrap_i64 (unwrap_or (pos 0) memory *ℤ replicas)) none) in
    let cpu_check =
      if_positive (unwrap_or (pos 0) cpu)
        (check_workspace_cpu_limit t ws (wrap_i32 (unwrap_or (pos 0) cpu *ℤ replicas)) none) in
    then_assoc_three
      (guard (owns_app t.apps ws app_id) (not_found (literal "Parent application not found.")))
      memory_check cpu_check
      (ok (write t ws (branch app_id id memory cpu replicas_min replicas_max)))
handler-checks t ws (database id memory cpu) =
    then_assoc (if_positive memory (check_workspace_memory_limit t ws memory none))
      (if_positive cpu (check_workspace_cpu_limit t ws cpu none))
      (ok (write t ws (database id memory cpu)))
handler-checks t ws (function id name_is_valid memory) =
    then_assoc (guard name_is_valid (validation (literal "The instance name is invalid.")))
      (check_workspace_memory_limit t ws memory none)
      (ok (write t ws (function id name_is_valid memory)))
