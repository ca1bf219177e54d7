-- ===== src/Access.antt =====
-- backend/src/middlewares: who is admitted to a route. `auth_middleware.rs` takes the claims out of a
-- request, and `permission_middleware.rs` and `workspace_middleware.rs` look the caller up in the tables
-- of roles. A middleware returns `ok tt` where the code runs the next layer. What jsonwebtoken decodes
-- is an argument.
pub mod Tokens
pub mod Grants
pub mod Workspaces
use project_hermes.Base.{
  ℕ, zero, suc, ◌+◌, ◌-◌, ◌*◌, ◌/◌, ◌%◌, ◌^◌, ◌≤◌, ◌<◌, min, max, String, ◌≡◌, refl, sym, ap, ◌∙◌,
  subst, ◌≢◌, ◌↔◌, ◌⊎◌, inl, inr, Bool, true, false, ◌&&◌, ◌||◌, not, Option, none, some, List, [],
  ◌∷◌, ◌++◌, arith, str_eq, str_eq_iff, starts_with, Uuid, Time, secs, ltb, leb, ◌==◌,
  if◌then◌else◌, ltb→lt, lt→ltb, leb→le, ==_iff, tests, Bool-cases, Option-cases, length, select,
  count_where, any, find, update_where, delete_where, All, map, All-append, All-if,
  All-update_where, All-delete_where, All-find,
}
use Prim.Native.Char.{Char, code}
use Prim.Native.String.{len, slice}
use project_hermes.Base.Int.{ℤ}
use project_hermes.Base.AppError.{
  Piece, text, num, Message, literal, AppError, auth, permission, validation, Result, ok, err,
  ◌>>=◌, ◌>>◌, guard, ok_or,
}

-- models/user_model.rs
pub data UserStatus : Type 0 where
  pending_verification active suspended : UserStatus

pub record Claims : Type 0 where
  pub sub : Uuid
  pub username : String
  pub email : String
  pub status : UserStatus
  pub is_super_admin : Bool
  pub current_workspace_id : Option Uuid
  pub exp : ℤ

-- The header is the one that reads as text.
pub record Parts : Type 0 where
  pub authorization : Option String
  pub query : Option String
  pub path : String

-- `&s[n..]`, after a test that `s` starts with `n` bytes.
abbrev pub from_byte : ℕ → String → String
from_byte n s = slice s n (len s)

abbrev pub split_char : Bool → Char → List String → List String
split_char true c parts = String.[] ∷ parts
split_char false c [] = (String.◌∷◌ c String.[]) ∷ []
split_char false c (part ∷ parts) = (String.◌∷◌ c part) ∷ parts

-- `query.split('&')`
abbrev pub split_ampersand : String → List String
split_ampersand String.[] = String.[] ∷ []
split_ampersand (String.◌∷◌ c s) = split_char (code c == 38) c (split_ampersand s)

abbrev pub token_param : Option String → Option String
token_param none = none
token_param (some part) = some (from_byte 6 part)

-- The header, and only without one the query.
unfoldable pub token_of : Option String → Option String → Result String
token_of (some header) query = do
  guard (starts_with header "Bearer ") (auth (literal "Invalid Authorization header format"))
  ok (from_byte 7 header)
token_of none (some query) =
    ok_or (auth (literal "Missing Authorization token in query parameter"))
      (token_param (find (λ part. starts_with part "token=") (split_ampersand query)))
token_of none none = err (auth (literal "Missing Authorization header or token query parameter"))

abbrev pub is_suspended : UserStatus → Bool
is_suspended UserStatus.suspended = true
is_suspended _ = false

abbrev pub is_pending : UserStatus → Bool
is_pending UserStatus.pending_verification = true
is_pending _ = false

-- The tests of the account's status.
abbrev pub admit : String → Claims → Result Claims
admit path claims = do
  guard (not (is_suspended claims.status)) (permission (literal "This account has been suspended"))
  guard (not (is_pending claims.status && not (str_eq path "/api/v1/auth/activate")))
      (permission (literal "Account activation required"))
  ok claims

unfoldable pub from_request_parts : (String → Option Claims) → Parts → Result Claims
from_request_parts decode parts = do
  token ← token_of parts.authorization parts.query
  claims ← ok_or (auth (literal "Invalid or expired token")) (decode token)
  admit parts.path claims

unfoldable pub enforce_super_admin : Claims → Result (Unit {0})
enforce_super_admin claims =
    guard claims.is_super_admin (permission (literal "Super Admin privileges required"))

pub record WorkspaceMember : Type 0 where
  pub workspace_id : Uuid
  pub user_id : Uuid
  pub role_id : Uuid

pub record RolePermission : Type 0 where
  pub role_id : Uuid
  pub permission_id : Uuid

-- A row of `roles` or of `permissions`.
pub record Named : Type 0 where
  pub id : Uuid
  pub name : String

pub record Roles : Type 0 where
  pub workspace_members : List WorkspaceMember
  pub roles : List Named
  pub role_permissions : List RolePermission
  pub permissions : List Named

abbrev pub is_member : Uuid → Uuid → WorkspaceMember → Bool
is_member ws user m = m.workspace_id == ws && m.user_id == user

-- The two JOINs from a role to a permission of the name.
abbrev pub role_has : Roles → String → Uuid → Bool
role_has t name role =
    any
      (λ (rp : RolePermission).
        rp.role_id == role
        && any (λ (p : Named). p.id == rp.permission_id && str_eq p.name name) t.permissions)
      t.role_permissions

abbrev pub has_perm : Roles → Uuid → Uuid → String → Bool
has_perm t ws user name =
    any (λ (m : WorkspaceMember). is_member ws user m && role_has t name m.role_id)
      t.workspace_members

abbrev pub permission_message : String → Message
permission_message name =
    text "Permission '" ∷ text name ∷ text "' required for this workspace." ∷ []

abbrev pub unless_super : Claims → Result (Unit {0}) → Result (Unit {0})
unless_super claims check = if claims.is_super_admin then ok tt else check

unfoldable pub check_permission : Roles → Claims → String → Result (Unit {0})
check_permission t claims name = do
  ws ← ok_or (validation (literal "No active workspace selected.")) claims.current_workspace_id
  unless_super claims (guard (has_perm t ws claims.sub name) (permission (permission_message name)))

abbrev pub role_name : Option Named → Option String → Option String
role_name none rest = rest
role_name (some r) rest = some r.name

-- The name of the role in the first row of the JOIN.
abbrev pub user_role : List Named → Uuid → Uuid → List WorkspaceMember → Option String
user_role roles ws user [] = none
user_role roles ws user (m ∷ ms) =
    let rest = user_role roles ws user ms in
    if is_member ws user m
    then role_name (find (λ (r : Named). r.id == m.role_id) roles) rest
    else rest

abbrev pub may_develop : Option String → Bool
may_develop none = false
may_develop (some role) = str_eq role "owner" || str_eq role "admin" || str_eq role "developer"

unfoldable pub enforce_workspace_developer : Roles → Claims → Result (Unit {0})
enforce_workspace_developer t claims = do
  ws ← ok_or (validation (literal "No active workspace selected.")) claims.current_workspace_id
  unless_super claims (
      guard (may_develop (user_role t.roles ws claims.sub t.workspace_members))
        (permission (literal "Developer privileges for this workspace required.")))
