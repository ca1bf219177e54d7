-- ===== src/Accounts.antt =====
-- backend/src/controllers/auth_controller.rs: the accounts of the platform, their sessions and the
-- selected workspace; with the tables that workspace_controller.rs shares. Queries are answered; a
-- read with LIMIT 1 takes the first row. What the crates argon2, jsonwebtoken and sha2 compute, and
-- random values, are arguments.
pub mod Admin
pub mod Sessions
pub mod Replay
pub mod Suspended
use project_hermes.Base.{
  ℕ, zero, suc, ◌+◌, ◌-◌, ◌*◌, ◌/◌, ◌%◌, ◌^◌, ◌≤◌, ◌<◌, min, max, String, ◌≡◌, refl, sym, ap, ◌∙◌,
  subst, ◌≢◌, ◌↔◌, ◌⊎◌, inl, inr, Bool, true, false, ◌&&◌, ◌||◌, not, Option, none, some, List, [],
  ◌∷◌, ◌++◌, arith, str_eq, str_eq_iff, Uuid, Time, secs, ltb, leb, ◌==◌, if◌then◌else◌, ltb→lt,
  lt→ltb, leb→le, ==_iff, tests, Bool-cases, Option-cases, length, select, count_where, any, find,
  update_where, delete_where, All, map, All-append, All-if, All-update_where, All-delete_where,
  All-find,
}
use project_hermes.Base.Int.{ℤ, pos}
use Prim.Native.String
use project_hermes.Base.AppError.{
  AppError, Result, ok, err, ◌>>=◌, ◌>>◌, guard, ok_or, literal, auth, validation, permission,
  conflict, not_found, rate_limited, fatal, text,
}
use project_hermes.Access.{
  UserStatus, Claims, WorkspaceMember, RolePermission, Named, is_member, is_suspended, is_pending,
}
use project_hermes.Locks.{Counters, check_rate_limit}

-- models/user_model.rs
pub record User : Type 0 where
  pub id : Uuid
  pub username : String
  pub email : String
  pub password_hash : String
  pub status : UserStatus
  pub is_super_admin : Bool
  pub current_workspace_id : Option Uuid
  pub last_login_at : Option Time
  pub last_login_ip : Option String
  pub last_login_user_agent : Option String

pub record AuthAuditLog : Type 0 where
  pub user_id : Option Uuid
  pub identity : String
  pub action : String
  pub client_ip : Option String
  pub user_agent : Option String

pub record RefreshToken : Type 0 where
  pub user_id : Uuid
  pub token : String
  pub expires_at : Time

pub record Workspace : Type 0 where
  pub id : Uuid
  pub name : String
  pub slug : String
  pub created_by : Uuid
  pub max_memory_mb : ℤ
  pub max_storage_gb : ℤ
  pub max_cpu_millicores : ℤ

-- The tables of a workspace's resources: those with a column for it, those whose rows belong to a row
-- of another, and those with a creator too.
pub record Owned : Type 0 where
  pub id : Uuid
  pub workspace_id : Uuid

pub record Part : Type 0 where
  pub id : Uuid
  pub parent_id : Uuid

pub record Created : Type 0 where
  pub id : Uuid
  pub workspace_id : Uuid
  pub created_by : Uuid

-- A cron job has an app only if that is its target; it is deleted with the app.
pub record CronRow : Type 0 where
  pub id : Uuid
  pub workspace_id : Uuid
  pub app_id : Option Uuid

-- The eleven tables of resources that `delete_workspace` empties, and two of those that it does not name.
pub record Resources : Type 0 where
  pub environment_variables : List Owned
  pub storage_buckets : List Owned
  pub storage_objects : List Part
  pub databases : List Owned
  pub database_backups : List Part
  pub apps : List Owned
  pub app_builds : List Part
  pub app_instances : List Part
  pub app_volumes : List Owned
  pub projects : List Created
  pub domains : List Created
  pub cron_jobs : List CronRow
  pub cloudflare_credentials : List Owned

pub record Db : Type 0 where
  pub resources : Resources
  pub users : List User
  pub workspaces : List Workspace
  pub workspace_members : List WorkspaceMember
  pub roles : List Named
  pub role_permissions : List RolePermission
  pub permissions : List Named
  pub refresh_tokens : List RefreshToken
  pub auth_audit_logs : List AuthAuditLog
  pub counters : Counters

-- The headers of a request that a handler reads, and that the INSERTs into auth_audit_logs, whose
-- errors the handlers ignore, are answered.
pub record Origin : Type 0 where
  pub audits : Bool
  pub client_ip : Option String
  pub user_agent : Option String

pub record Crates : Type 0 where
  -- crypto.rs: the error is that of a hash that cannot be parsed.
  pub verify_password : String → String → Result Bool
  pub hash_password : String → Result String
  -- utils/jwt.rs: the signed token, or the error of the crate.
  pub encode : Claims → String ⊎ String
  pub sha256 : String → String
  -- LOWER of PostgreSQL
  pub lower : String → String
  -- JWT_ACCESS_EXPIRY and JWT_REFRESH_EXPIRY, in seconds
  pub access_expiry_secs : ℕ
  pub refresh_expiry_secs : ℕ

pub record TokenBundle : Type 0 where
  pub access_token : String
  pub refresh_token : String
  pub refresh_expires_at : Time

abbrev pub if_audited : Bool → AuthAuditLog → List AuthAuditLog → List AuthAuditLog
if_audited true entry logs = entry ∷ logs
if_audited false entry logs = logs

abbrev pub audit_entry : Origin → Option Uuid → String → String → AuthAuditLog
audit_entry from user identity action = record {
  user_id = user;
  identity = identity;
  action = action;
  client_ip = from.client_ip;
  user_agent = from.user_agent;
}

abbrev pub record_audit : Origin → Option Uuid → String → String → Db → Db
record_audit from user identity action d = record d {
  auth_audit_logs =
      if_audited from.audits (audit_entry from user identity action) d.auth_audit_logs;
}

abbrev pub update_user : Uuid → (User → User) → Db → Db
update_user id f d = record d { users = update_where (λ (u : User). u.id == id) f d.users }

abbrev pub user_by_id : Uuid → Db → Option User
user_by_id id d = find (λ (u : User). u.id == id) d.users

-- `fetch_one` without a row.
abbrev pub row_not_found : AppError
row_not_found =
    fatal (literal "no rows returned by a query that expected to return at least one row")

abbrev pub with_workspace : Uuid → User → User
with_workspace ws u = record u { current_workspace_id = some ws }

abbrev pub logged_in : Time → Origin → User → User
logged_in now from u = record u {
  last_login_at = some now;
  last_login_ip = from.client_ip;
  last_login_user_agent = from.user_agent;
}

abbrev pub with_password : String → UserStatus → User → User
with_password hash status u = record u { password_hash = hash; status = status }

abbrev pub with_status : UserStatus → User → User
with_status status u = record u { status = status }

abbrev pub or_unknown : Option String → String
or_unknown none = "unknown"
or_unknown (some ip) = ip

abbrev pub login_bucket : Option String → String
login_bucket ip = String.◌++◌ "login:" (or_unknown ip)

abbrev pub of_member : User → Option WorkspaceMember → User × Option Uuid
of_member u none = (u, none)
of_member u (some m) = (with_workspace m.workspace_id u, some m.workspace_id)

-- A user without a workspace gets that of a membership.
abbrev pub default_workspace : List WorkspaceMember → User → Option Uuid → User × Option Uuid
default_workspace members u (some ws) = (u, none)
default_workspace members u none =
    of_member u (find (λ (m : WorkspaceMember). m.user_id == u.id) members)

abbrev pub store_workspace : Uuid → Option Uuid → Db → Db
store_workspace id none d = d
store_workspace id (some ws) d = update_user id (with_workspace ws) d

module _ (lib : Crates) where
  abbrev pub claims_of : Time → User → Claims
  claims_of now u = record {
    sub = u.id;
    username = u.username;
    email = u.email;
    status = u.status;
    is_super_admin = u.is_super_admin;
    current_workspace_id = u.current_workspace_id;
    exp = pos ((now + secs lib.access_expiry_secs) / 1000000);
  }

  abbrev pub bundle_of : Time → String → String ⊎ String → Result TokenBundle
  bundle_of now random (inl e) = err (fatal (text e ∷ []))
  bundle_of now random (inr token) = ok (record {
    access_token = token;
    refresh_token = random;
    refresh_expires_at = now + secs lib.refresh_expiry_secs;
  })

  -- `random` is the new refresh token.
  abbrev pub generate_token_bundle : Time → String → User → Result TokenBundle
  generate_token_bundle now random u = bundle_of now random (lib.encode (claims_of now u))

  abbrev pub store_token : Uuid → TokenBundle → Db → Db
  store_token user bundle d = record d {
    refresh_tokens =
        record {
          user_id = user;
          token = lib.sha256 bundle.refresh_token;
          expires_at = bundle.refresh_expires_at;
        }
        ∷ d.refresh_tokens;
  }

  abbrev pub issued : User → Db → Result TokenBundle → Db × Result TokenBundle
  issued u d (err e) = (d, err e)
  issued u d (ok bundle) = (store_token u.id bundle d, ok bundle)

  -- The end of the handlers that issue tokens.
  unfoldable pub issue : Time → String → User → Db → Db × Result TokenBundle
  issue now random u d = issued u d (generate_token_bundle now random u)

  abbrev pub start_session :
      Time → Origin → String → Db → User × Option Uuid → Db × Result TokenBundle
  start_session now from random d (u, chosen) = issue now random u (
      record_audit from (some u.id) u.email "LOGIN_SUCCESS"
        (update_user u.id (logged_in now from) (store_workspace u.id chosen d)))

  abbrev pub verified :
      Time → Origin → String → String → User → Db → Result Bool → Db × Result TokenBundle
  verified now from identity random u d (err e) = (d, err e)
  verified now from identity random u d (ok false) = (
    record_audit from (some u.id) identity "LOGIN_FAILED" d,
    err (auth (literal "Invalid credentials.")),
  )
  verified now from identity random u d (ok true) =
      start_session now from random d
        (default_workspace d.workspace_members u u.current_workspace_id)

  abbrev pub authenticate :
      Time → Origin → String → String → String → Db → Option User → Db × Result TokenBundle
  authenticate now from identity password random d none = (
    record_audit from none identity "LOGIN_FAILED" d,
    err (auth (literal "Invalid credentials.")),
  )
  authenticate now from identity password random d (some u) =
      if is_suspended u.status
      then (
        record_audit from (some u.id) identity "LOGIN_FAILED" d,
        err (auth (literal "This account has been suspended.")),
      )
      else verified now from identity random u d (lib.verify_password password u.password_hash)

  abbrev pub has_identity : String → User → Bool
  has_identity identity u =
      str_eq (lib.lower u.email) (lib.lower identity)
      || str_eq (lib.lower u.username) (lib.lower identity)

  abbrev pub throttle : Bool → Time → Origin → Db → Counters × Bool
  throttle reachable now from d =
      check_rate_limit reachable now (login_bucket from.client_ip) 10 300 d.counters

  unfoldable pub login :
      Bool → Time → Origin → String → String → String → Db → Db × Result TokenBundle
  login reachable now from identity password random d =
      let limited = throttle reachable now from d in
      let d' = record d { counters = limited.0 } in
      if limited.1
      then authenticate now from identity password random d' (find (has_identity identity) d.users)
      else (
        d',
        err (rate_limited (literal "Too many login attempts. Please try again in a few minutes.")),
      )

  abbrev pub redeems : Time → String → RefreshToken → Bool
  redeems now raw t = str_eq t.token (lib.sha256 raw) && ltb now t.expires_at

  abbrev pub renew : Time → String → Db → Option User → Db × Result TokenBundle
  renew now random d none = (d, err row_not_found)
  renew now random d (some u) =
      if is_suspended u.status
      then (d, err (auth (literal "This account has been suspended.")))
      else issue now random u d

  abbrev pub redeem : Time → String → String → Db → Option RefreshToken → Db × Result TokenBundle
  redeem now raw random d none = (d, err (auth (literal "Invalid or expired refresh token.")))
  redeem now raw random d (some t) =
      let d' = record d { refresh_tokens = delete_where (redeems now raw) d.refresh_tokens } in
      renew now random d' (user_by_id t.user_id d)

  unfoldable pub refresh_session : Time → String → String → Db → Db × Result TokenBundle
  refresh_session now raw random d =
      redeem now raw random d (find (redeems now raw) d.refresh_tokens)

  abbrev pub issue_to : Time → String → Db → Option User → Db × Result TokenBundle
  issue_to now random d none = (d, err row_not_found)
  issue_to now random d (some u) = issue now random u d

  unfoldable pub switch_workspace : Time → Claims → Uuid → String → Db → Db × Result TokenBundle
  switch_workspace now claims ws random d =
      if any (is_member ws claims.sub) d.workspace_members || claims.is_super_admin
      then (let d' = update_user claims.sub (with_workspace ws) d in
          issue_to now random d' (user_by_id claims.sub d'))
      else (d, err (permission (literal "You do not have access to this workspace.")))
