-- ===== src/Examples/Workspaces.antt =====
-- Members and the deletion of a workspace at concrete inputs
-- (backend/src/controllers/workspace_controller.rs).
use project_hermes.Base.{
  String, ◌≡◌, refl, ◌⊎◌, inl, inr, true, false, Option, none, some, List, [], ◌∷◌, arith, Uuid,
  ◌==◌, Bool-cases, any,
}
use project_hermes.Base.Int.{pos}
use project_hermes.Base.AppError.{AppError, ok, err, literal, permission, fatal}
use project_hermes.Access.{
  UserStatus, Claims, Named, user_role, permission_message, check_permission,
  enforce_workspace_developer,
}
use project_hermes.Accounts.{User, Workspace, Db}
use project_hermes.Workspaces.{
  owns, role_named, roles_of, member_route, add_workspace_member, update_workspace_member_role,
  remove_workspace_member, delete_workspace, remove_rows, purge,
}
use project_hermes.Workspaces.Rows.{IsOwned}
use project_hermes.Workspaces.Owners.{Request, add, change_role, remove, run, run-IsOwned}
use project_hermes.Workspaces.Deletion.{IsDeleted, delete_workspace-IsDeleted}
use project_hermes.Workspaces.Permissions.{
  as_owner, remove_workspace_member-check_permission,
  update_workspace_member_role-enforce_workspace_developer,
}
use project_hermes.Examples.Accounts.{no_resources}

abbrev same : String → String
same s = s

abbrev refusal : AppError
refusal = fatal (literal "duplicate key")

abbrev owner : Named
owner = record { id = 21; name = "owner" }

abbrev viewer : Named
viewer = record { id = 22; name = "viewer" }

abbrev person : Uuid → String → Option Uuid → User
person id email ws = record {
  id = id;
  username = email;
  email = email;
  password_hash = "";
  status = UserStatus.active;
  is_super_admin = false;
  current_workspace_id = ws;
  last_login_at = none;
  last_login_ip = none;
  last_login_user_agent = none;
}

abbrev claims : Uuid → Claims
claims sub = record {
  sub = sub;
  username = "";
  email = "";
  status = UserStatus.active;
  is_super_admin = false;
  current_workspace_id = some 1;
  exp = pos 0;
}

abbrev shop : Workspace
shop = record {
  id = 1;
  name = "Shop";
  slug = "shop";
  created_by = 7;
  max_memory_mb = pos 0;
  max_storage_gb = pos 0;
  max_cpu_millicores = pos 0;
}

-- Ana, who created the workspace, and Ben, a viewer.
abbrev tables : Db
tables = record {
  resources = record no_resources {
    apps = record { id = 31; workspace_id = 1 } ∷ record { id = 32; workspace_id = 2 } ∷ [];
    app_instances = record { id = 33; parent_id = 31 } ∷ record { id = 34; parent_id = 32 } ∷ [];
  };
  users = person 7 "ana" (some 1) ∷ person 8 "ben" (some 1) ∷ person 9 "eve" none ∷ [];
  workspaces = shop ∷ [];
  workspace_members =
      record { workspace_id = 1; user_id = 7; role_id = 21 }
      ∷ record { workspace_id = 1; user_id = 8; role_id = 22 }
      ∷ [];
  roles = owner ∷ viewer ∷ [];
  role_permissions = record { role_id = 22; permission_id = 41 } ∷ [];
  permissions = record { id = 41; name = "project:read" } ∷ [];
  refresh_tokens = [];
  auth_audit_logs = [];
  counters = [];
}

some_creator : (a b : Workspace) → some a ≡ some b → a.created_by ≡ b.created_by
some_creator a b e = cc

tables-IsOwned : IsOwned owner tables
tables-IsOwned = record {
  role = refl;
  creators = λ ws w found. elim (Bool-cases (1 == ws)) [
    | inl here ↦
        let found' = rw here at found in
        let creator = some_creator shop w found' in rw (here, ← creator) refl
    | inr apart ↦ absurd (let found' = rw apart at found in cc)
  ];
  once = λ ws user. ground arith;
}

abbrev requests : List Request
requests =
    add (claims 7) "eve" "viewer"
    ∷ change_role (claims 8) 9 "owner"
    ∷ remove (claims 8) 7
    ∷ change_role (claims 8) 7 "viewer"
    ∷ remove (claims 7) 8
    ∷ []

-- Ben cannot touch the creator; Eve is an owner at the end, and Ben is gone.
requests_members :
    (run same same refusal tables requests).workspace_members
    ≡ record { workspace_id = 1; user_id = 9; role_id = 21 }
      ∷ record { workspace_id = 1; user_id = 7; role_id = 21 }
      ∷ []
unfolding add_workspace_member update_workspace_member_role remove_workspace_member
requests_members = refl

run-IsOwned_example : IsOwned owner (run same same refusal tables requests)
run-IsOwned_example = run-IsOwned same same refusal owner tables requests tables-IsOwned

deleted : delete_workspace (claims 7) 1 (ok tt) tables ≡ ok (remove_rows 1 tables)
unfolding delete_workspace
deleted = refl

deleted_instances :
    (remove_rows 1 tables).resources.app_instances ≡ record { id = 34; parent_id = 32 } ∷ []
unfolding remove_rows purge
deleted_instances = refl

delete_workspace-IsDeleted_example :
    (((claims 7).is_super_admin ≡ true)
      ⊎ ((o : Named) × (role_named "owner" tables ≡ some o)
          × (any (owns 1 7 o.id) tables.workspace_members ≡ true)))
    × IsDeleted 1 tables (remove_rows 1 tables)
delete_workspace-IsDeleted_example = delete_workspace-IsDeleted (claims 7) 1 (ok tt) tables deleted

abbrev without_ben : Db
without_ben = record tables {
  workspace_members = record { workspace_id = 1; user_id = 7; role_id = 21 } ∷ [];
}

removed : remove_workspace_member (claims 7) 8 tables ≡ ok without_ben
unfolding remove_workspace_member
removed = refl

remove_workspace_member-check_permission_example :
    check_permission (roles_of without_ben) (claims 8) "project:read"
    ≡ err (permission (permission_message "project:read"))
remove_workspace_member-check_permission_example =
    remove_workspace_member-check_permission (claims 7) 8 1 tables removed refl (claims 8)
      "project:read" refl refl refl

reads : check_permission (roles_of tables) (claims 8) "project:read" ≡ ok tt
unfolding check_permission
reads = refl

update_workspace_member_role-enforce_workspace_developer_example :
    (member_route
        (claims 8)
        tables
        (update_workspace_member_role same same refusal (claims 8) 8 "owner" tables)
      ≡ ok (as_owner 1 8 owner tables))
    × (user_role tables.roles 1 8 (as_owner 1 8 owner tables).workspace_members ≡ some "owner")
    × (enforce_workspace_developer (roles_of (as_owner 1 8 owner tables)) (claims 8) ≡ ok tt)
update_workspace_member_role-enforce_workspace_developer_example =
    update_workspace_member_role-enforce_workspace_developer same same refusal (claims 8) 1 shop
      owner tables refl refl refl (omega arith) refl refl refl reads
