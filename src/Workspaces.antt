-- ===== src/Workspaces.antt =====
-- backend/src/controllers/workspace_controller.rs: workspaces and their members. Queries are answered;
-- `refusal` is the error of a statement that a constraint of the tables refuses. Unicode's case
-- mapping and white space (`to_lowercase`, `trim`) are arguments, as are a new id, the answer of
-- Kubernetes, and what is removed from the disk is left out.
pub mod Rows
pub mod Added
pub mod Kept
pub mod Owners
pub mod Deletion
pub mod Permissions
use project_hermes.Base.{
  ℕ, zero, suc, ◌+◌, ◌-◌, ◌*◌, ◌/◌, ◌%◌, ◌^◌, ◌≤◌, ◌<◌, min, max, String, ◌≡◌, refl, sym, ap, ◌∙◌,
  subst, ◌≢◌, ◌↔◌, ◌⊎◌, inl, inr, Bool, true, false, ◌&&◌, ◌||◌, not, Option, none, some, List, [],
  ◌∷◌, ◌++◌, arith, str_eq, str_eq_iff, Uuid, Time, secs, ltb, leb, ◌==◌, if◌then◌else◌, ltb→lt,
  lt→ltb, leb→le, ==_iff, tests, Bool-cases, Option-cases, length, select, count_where, any, find,
  update_where, delete_where, All, map, All-append, All-if, All-update_where, All-delete_where,
  All-find,
}
use Prim.Native.Char.{code}
use project_hermes.Base.Int.{ℤ, pos}
use project_hermes.Base.AppError.{
  AppError, Result, ok, err, ◌>>=◌, ◌>>◌, guard, ok_or, literal, validation, permission, conflict,
  not_found,
}
use project_hermes.Access.{Claims, WorkspaceMember, Named, Roles, is_member, check_permission}
use project_hermes.Accounts.{
  User, Workspace, Owned, Part, Created, CronRow, Resources, Db, update_user, with_workspace,
  row_not_found,
}

-- `replace(" ", "-")`
abbrev pub dashed : String → String
dashed String.[] = String.[]
dashed (String.◌∷◌ c s) =
    let rest = dashed s in if code c == 32 then String.◌∷◌ "-" rest else String.◌∷◌ c rest

abbrev pub no_workspace : AppError
no_workspace = validation (literal "No active workspace selected.")

abbrev pub role_named : String → Db → Option Named
role_named name d = find (λ (r : Named). str_eq r.name name) d.roles

abbrev pub workspace_by_id : Uuid → Db → Option Workspace
workspace_by_id id d = find (λ (w : Workspace). w.id == id) d.workspaces

-- The primary key of `workspace_members` is the pair.
abbrev pub insert_member : AppError → Uuid → Uuid → Uuid → Db → Result Db
insert_member refusal ws user role d =
    if any (is_member ws user) d.workspace_members
    then err refusal
    else ok (record d {
      workspace_members =
          record { workspace_id = ws; user_id = user; role_id = role } ∷ d.workspace_members;
    })

abbrev pub select_if_none : Option Uuid → Uuid → Uuid → Db → Db
select_if_none none ws user d = update_user user (with_workspace ws) d
select_if_none (some _) ws user d = d

abbrev pub with_role : Uuid → WorkspaceMember → WorkspaceMember
with_role role m = record m { role_id = role }

module _ (to_lowercase trim : String → String) (refusal : AppError) where
  abbrev pub slug_of : String → String
  slug_of name = dashed (trim (to_lowercase name))

  abbrev pub new_workspace : Uuid → Uuid → String → Workspace
  new_workspace id creator name = record {
    id = id;
    name = name;
    slug = slug_of name;
    created_by = creator;
    max_memory_mb = pos 0;
    max_storage_gb = pos 0;
    max_cpu_millicores = pos 0;
  }

  -- `namespace` is the answer of Kubernetes: on an error the transaction is rolled back.
  unfoldable pub create_workspace : Claims → Uuid → String → Result (Unit {0}) → Db → Result Db
  create_workspace claims id name namespace d = do
    guard claims.is_super_admin
        (permission (literal "Only platform administrators can create workspaces."))
    guard (not (any (λ (w : Workspace). str_eq w.slug (slug_of name)) d.workspaces))
        (conflict (literal "A workspace with a similar name already exists"))
    let inserted = record d { workspaces = new_workspace id claims.sub name ∷ d.workspaces }
    owner ← ok_or refusal (role_named "owner" d)
    with_owner ← insert_member refusal id claims.sub owner.id inserted
    namespace
    ok (select_if_none claims.current_workspace_id id claims.sub with_owner)

  unfoldable pub add_workspace_member : Claims → String → String → Db → Result Db
  add_workspace_member claims email role_name d = do
    ws ← ok_or no_workspace claims.current_workspace_id
    user ←
        ok_or (not_found (literal "User with this email not found."))
          (find (λ (u : User). str_eq u.email (to_lowercase (trim email))) d.users)
    guard (not (any (is_member ws user.id) d.workspace_members))
        (conflict (literal "User is already a member of this workspace."))
    role ←
        ok_or (validation (literal "Invalid role name specified."))
          (role_named (to_lowercase (trim role_name)) d)
    insert_member refusal ws user.id role.id d

  unfoldable pub update_workspace_member_role : Claims → Uuid → String → Db → Result Db
  update_workspace_member_role claims user role_name d = do
    ws ← ok_or no_workspace claims.current_workspace_id
    w ← ok_or row_not_found (workspace_by_id ws d)
    guard (not (user == w.created_by))
        (validation (literal "Cannot modify the role of the workspace owner."))
    guard (any (is_member ws user) d.workspace_members)
        (not_found (literal "Member not found in this workspace."))
    role ←
        ok_or (validation (literal "Invalid role name specified."))
          (role_named (to_lowercase (trim role_name)) d)
    ok (record d {
      workspace_members = update_where (is_member ws user) (with_role role.id) d.workspace_members;
    })

-- The statement has run where no row is affected, and has changed nothing.
unfoldable pub remove_workspace_member : Claims → Uuid → Db → Result Db
remove_workspace_member claims user d = do
  ws ← ok_or no_workspace claims.current_workspace_id
  w ← ok_or row_not_found (workspace_by_id ws d)
  guard (not (user == w.created_by)) (validation (literal "Cannot remove the workspace owner."))
  guard (not (user == claims.sub))
      (validation (literal "Cannot remove yourself from the workspace."))
  guard (any (is_member ws user) d.workspace_members)
      (not_found (literal "Member not found in this workspace."))
  ok (record d { workspace_members = delete_where (is_member ws user) d.workspace_members })

abbrev pub or_keep {ℓ} : {A : Type ℓ} → Option A → A → A
or_keep none old = old
or_keep (some new) old = new

module _ (slug_of : String → String) where
  abbrev pub slug_or : Option String → String → String
  slug_or none old = old
  slug_or (some name) old = slug_of name

  -- The UPDATE of the row, which Kubernetes is told of and whose refusal of it is ignored.
  abbrev pub with_changes : Option String → Option ℤ → Option ℤ → Option ℤ → Workspace → Workspace
  with_changes name max_memory_mb max_storage_gb max_cpu_millicores w = record w {
    name = or_keep name w.name;
    slug = slug_or name w.slug;
    max_memory_mb = or_keep max_memory_mb w.max_memory_mb;
    max_storage_gb = or_keep max_storage_gb w.max_storage_gb;
    max_cpu_millicores = or_keep max_cpu_millicores w.max_cpu_millicores;
  }

  unfoldable pub update_workspace_settings :
      Claims → Option String → Option ℤ → Option ℤ → Option ℤ → Db → Result Db
  update_workspace_settings claims name max_memory_mb max_storage_gb max_cpu_millicores d = do
    ws ← ok_or no_workspace claims.current_workspace_id
    current ← ok_or row_not_found (workspace_by_id ws d)
    let changed = with_changes name max_memory_mb max_storage_gb max_cpu_millicores current
    ok (record d {
      workspaces =
          update_where (λ (w : Workspace). w.id == ws)
            (λ w. record w {
              name = changed.name;
              slug = changed.slug;
              max_memory_mb = changed.max_memory_mb;
              max_storage_gb = changed.max_storage_gb;
              max_cpu_millicores = changed.max_cpu_millicores;
            })
            d.workspaces;
    })

-- `IN (SELECT id FROM ... WHERE workspace_id = $1)`
abbrev pub in_workspace : List Owned → Uuid → Part → Bool
in_workspace parents ws p = any (λ (o : Owned). o.id == p.parent_id && o.workspace_id == ws) parents

abbrev pub is_of : Uuid → Owned → Bool
is_of ws o = o.workspace_id == ws

abbrev pub is_created_in : Uuid → Created → Bool
is_created_in ws c = c.workspace_id == ws

-- `app_id REFERENCES apps ON DELETE CASCADE`
abbrev pub is_app_in : List Owned → Uuid → Option Uuid → Bool
is_app_in apps ws none = false
is_app_in apps ws (some app) = any (λ (a : Owned). a.id == app && is_of ws a) apps

abbrev pub is_cron_in : List Owned → Uuid → CronRow → Bool
is_cron_in apps ws j = is_app_in apps ws j.app_id

unfoldable pub purge : Uuid → Resources → Resources
purge ws r = record {
  environment_variables = delete_where (is_of ws) r.environment_variables;
  storage_objects = delete_where (in_workspace r.storage_buckets ws) r.storage_objects;
  storage_buckets = delete_where (is_of ws) r.storage_buckets;
  database_backups = delete_where (in_workspace r.databases ws) r.database_backups;
  databases = delete_where (is_of ws) r.databases;
  app_builds = delete_where (in_workspace r.apps ws) r.app_builds;
  app_instances = delete_where (in_workspace r.apps ws) r.app_instances;
  app_volumes = delete_where (is_of ws) r.app_volumes;
  apps = delete_where (is_of ws) r.apps;
  cron_jobs = delete_where (is_cron_in r.apps ws) r.cron_jobs;
  cloudflare_credentials = r.cloudflare_credentials;
  projects = delete_where (is_created_in ws) r.projects;
  domains = delete_where (is_created_in ws) r.domains;
}

abbrev pub is_selected : Uuid → Option Uuid → Bool
is_selected ws none = false
is_selected ws (some v) = v == ws

abbrev pub is_null : Option Uuid → Bool
is_null none = true
is_null (some v) = false

abbrev pub has_selected : Uuid → User → Bool
has_selected ws u = is_selected ws u.current_workspace_id

abbrev pub has_none : User → Bool
has_none u = is_null u.current_workspace_id

abbrev pub deselected : User → User
deselected u = record u { current_workspace_id = none }

abbrev pub workspace_of : Option WorkspaceMember → Option Uuid
workspace_of none = none
workspace_of (some m) = some m.workspace_id

abbrev pub reselected : List WorkspaceMember → User → User
reselected members u = record u {
  current_workspace_id = workspace_of (find (λ (m : WorkspaceMember). m.user_id == u.id) members);
}

abbrev pub owns : Uuid → Uuid → Uuid → WorkspaceMember → Bool
owns ws user role m = is_member ws user m && m.role_id == role

abbrev pub may_delete : Claims → Uuid → Db → Result Bool
may_delete claims ws d =
    if claims.is_super_admin
    then ok true
    else (ok_or row_not_found (role_named "owner" d) >>= λ owner.
        ok (any (owns ws claims.sub owner.id) d.workspace_members))

-- The last statement but one gives every user without a workspace one of a membership.
unfoldable pub remove_rows : Uuid → Db → Db
remove_rows ws d =
    let members =
      delete_where (λ (m : WorkspaceMember). m.workspace_id == ws) d.workspace_members in
    record d {
      resources = purge ws d.resources;
      workspace_members = members;
      users =
          update_where has_none (reselected members)
            (update_where (has_selected ws) deselected d.users);
      workspaces = delete_where (λ (w : Workspace). w.id == ws) d.workspaces;
    }

-- `client` is that Kubernetes gave a client.
unfoldable pub delete_workspace : Claims → Uuid → Result (Unit {0}) → Db → Result Db
delete_workspace claims ws client d = do
  is_owner ← may_delete claims ws d
  guard is_owner
      (permission (literal "Only workspace owners or super admins can delete workspaces."))
  client
  ok (remove_rows ws d)

-- The tables that the middlewares read.
abbrev pub roles_of : Db → Roles
roles_of d = record {
  workspace_members = d.workspace_members;
  roles = d.roles;
  role_permissions = d.role_permissions;
  permissions = d.permissions;
}

-- routes/workspace_routes.rs: the routes about members pass one middleware before the handler.
abbrev pub member_route : Claims → Db → Result Db → Result Db
member_route claims d handler = do check_permission (roles_of d) claims "project:read"; handler
