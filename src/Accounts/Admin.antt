-- ===== src/Accounts/Admin.antt =====
-- backend/src/controllers/auth_controller.rs: `provision_user`, `activate`, `change_password`, and what a
-- super admin does to an account. A new id and a temporary password are arguments.
use project_hermes.Base.{
  String, Bool, true, false, ◌||◌, not, none, some, ◌∷◌, str_eq, Uuid, ◌==◌, any, find,
  update_where, delete_where,
}
use project_hermes.Base.AppError.{
  Result, ok, err, ◌>>=◌, ◌>>◌, guard, ok_or, literal, auth, validation, permission, conflict,
  not_found,
}
use project_hermes.Access.{UserStatus, Claims, WorkspaceMember, is_pending}
use project_hermes.Accounts.{
  User, RefreshToken, Workspace, Created, Db, Origin, Crates, record_audit, update_user, user_by_id,
  row_not_found, with_password, with_status,
}

-- `m?` of a handler that has changed nothing yet, and its end.
abbrev pub or_unchanged {ℓ} : {A : Type ℓ} → Db → Result (Db × A) → Db × Result A
or_unchanged d (err e) = (d, err e)
or_unchanged d (ok (d', a)) = (d', ok a)

abbrev pub expect : Result Bool → Result (Unit {0}) → Result (Unit {0})
expect (err e) otherwise = err e
expect (ok true) otherwise = ok tt
expect (ok false) otherwise = otherwise

abbrev pub toggled : UserStatus → UserStatus
toggled UserStatus.suspended = UserStatus.active
toggled _ = UserStatus.suspended

abbrev pub super_admin : Claims → Result (Unit {0})
super_admin claims =
    guard claims.is_super_admin (permission (literal "Super Admin privileges required"))

-- ON DELETE CASCADE of the user's rows in workspace_members and refresh_tokens.
abbrev pub cascade_user : Uuid → Db → Db
cascade_user id d = record d {
  users = delete_where (λ (u : User). u.id == id) d.users;
  workspace_members = delete_where (λ (m : WorkspaceMember). m.user_id == id) d.workspace_members;
  refresh_tokens = delete_where (λ (t : RefreshToken). t.user_id == id) d.refresh_tokens;
}

abbrev pub created_by_user : Uuid → Created → Bool
created_by_user id c = c.created_by == id

abbrev pub created_now_by : Uuid → Created → Created
created_now_by admin c = record c { created_by = admin }

-- `UPDATE ... SET created_by = $1 WHERE created_by = $2` on the three tables.
abbrev pub reassign : Uuid → Uuid → Db → Db
reassign admin id d = record d {
  workspaces =
      update_where (λ (w : Workspace). w.created_by == id) (λ w. record w { created_by = admin })
        d.workspaces;
  resources = record d.resources {
    projects = update_where (created_by_user id) (created_now_by admin) d.resources.projects;
    domains = update_where (created_by_user id) (created_now_by admin) d.resources.domains;
  };
}

-- The transaction is rolled back where no user has the id.
unfoldable pub delete_user : Claims → Uuid → Db → Db × Result (Unit {0})
delete_user claims id d = or_unchanged d (do
  super_admin claims
  guard (not (id == claims.sub)) (validation (literal "You cannot delete your own account."))
  guard (any (λ (u : User). u.id == id) d.users) (not_found (literal "User not found."))
  ok (cascade_user id (reassign claims.sub id d), tt))

module _ (lib : Crates) where
  unfoldable pub change_password : Origin → Claims → String → String → Db → Db × Result (Unit {0})
  change_password from claims current new d = or_unchanged d (do
    u ← ok_or row_not_found (user_by_id claims.sub d)
    expect (lib.verify_password current u.password_hash)
        (err (auth (literal "Current password inside data is incorrect.")))
    hash ← lib.hash_password new
    let d' = update_user u.id (with_password hash u.status) d
    ok (record_audit from (some u.id) u.email "PASSWORD_CHANGE" d', tt))

  abbrev pub is_taken : String → String → User → Bool
  is_taken email username u =
      str_eq (lib.lower u.email) (lib.lower email)
      || str_eq (lib.lower u.username) (lib.lower username)

  abbrev pub provisioned : Uuid → String → String → String → Bool → User
  provisioned id username email hash is_super_admin = record {
    id = id;
    username = username;
    email = email;
    password_hash = hash;
    status = UserStatus.pending_verification;
    is_super_admin = is_super_admin;
    current_workspace_id = none;
    last_login_at = none;
    last_login_ip = none;
    last_login_user_agent = none;
  }

  -- The temporary password is returned.
  unfoldable pub provision_user :
      Origin → Claims → Uuid → String → String → Bool → String → Db → Db × Result String
  provision_user from claims id username email is_super_admin temporary d = or_unchanged d (do
    guard (not (any (is_taken email username) d.users))
        (conflict (literal "A user with this email or username already exists."))
    hash ← lib.hash_password temporary
    let d' = record d { users = provisioned id username email hash is_super_admin ∷ d.users }
    ok (record_audit from (some claims.sub) email "USER_PROVISIONED" d', temporary))

  unfoldable pub activate : String → String → String → Db → Db × Result (Unit {0})
  activate email temporary new d = or_unchanged d (do
    u ←
        ok_or (not_found (literal "User not found."))
          (find (λ (u : User). str_eq (lib.lower u.email) (lib.lower email)) d.users)
    guard (is_pending u.status) (validation (literal "Account is already verified or active."))
    expect (lib.verify_password temporary u.password_hash)
        (err (auth (literal "Invalid temporary password.")))
    hash ← lib.hash_password new
    ok (update_user u.id (with_password hash UserStatus.active) d, tt))

  unfoldable pub reset_user_password : Claims → Uuid → String → Db → Db × Result String
  reset_user_password claims id temporary d = or_unchanged d (do
    super_admin claims
    guard (not (id == claims.sub)) (
        validation
          (literal "You cannot reset your own password this way. Use the settings page instead."))
    guard (any (λ (u : User). u.id == id) d.users) (not_found (literal "User not found."))
    hash ← lib.hash_password temporary
    ok (update_user id (with_password hash UserStatus.pending_verification) d, temporary))

unfoldable pub toggle_user_suspend : Claims → Uuid → Db → Db × Result UserStatus
toggle_user_suspend claims id d = or_unchanged d (do
  super_admin claims
  guard (not (id == claims.sub)) (validation (literal "You cannot suspend your own account."))
  u ← ok_or (not_found (literal "User not found.")) (user_by_id id d)
  ok (update_user id (with_status (toggled u.status)) d, toggled u.status))
