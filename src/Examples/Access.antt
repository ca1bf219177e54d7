-- ===== src/Examples/Access.antt =====
-- The middlewares of backend/src/middlewares at concrete inputs.
use project_hermes.Base.{
  String, ◌≡◌, refl, ◌↔◌, ◌⊎◌, true, false, Option, none, some, [], ◌∷◌, str_eq, Uuid,
  if◌then◌else◌,
}
use project_hermes.Base.AppError.{auth, ok, err, literal}
use project_hermes.Access.{
  UserStatus, Claims, Parts, WorkspaceMember, Named, Roles, token_of, from_request_parts,
  check_permission, split_ampersand,
}
use project_hermes.Access.Tokens.{IsAdmitted, from_request_parts-ok}
use project_hermes.Access.Grants.{IsGranted, check_permission-IsGranted}
use project_hermes.Base.Int.{pos}

abbrev ana : Claims
ana = record {
  sub = 4;
  username = "ana";
  email = "ana@example.org";
  status = UserStatus.active;
  is_super_admin = false;
  current_workspace_id = some 1;
  exp = pos 0;
}

abbrev decode : String → Option Claims
decode token = if str_eq token "t0k" then some ana else none

abbrev request : Parts
request = record { authorization = some "Bearer t0k"; query = none; path = "/api/v1/apps" }

split_test : split_ampersand "a=1&token=t0k" ≡ "a=1" ∷ "token=t0k" ∷ []
split_test = refl

query_test : token_of none (some "a=1&token=t0k") ≡ ok "t0k"
unfolding token_of
query_test = refl

basic_test :
    token_of (some "Basic x") (some "token=t0k")
    ≡ err (auth (literal "Invalid Authorization header format"))
unfolding token_of
basic_test = refl

admitted : from_request_parts decode request ≡ ok ana
unfolding from_request_parts token_of
admitted = refl

from_request_parts-ok_example :
    (token : String) × (token_of (some "Bearer t0k") none ≡ ok token)
    × (decode token ≡ some ana)
    × IsAdmitted "/api/v1/apps" ana
from_request_parts-ok_example = from_request_parts-ok decode request admitted

abbrev member : Uuid → Uuid → Uuid → WorkspaceMember
member ws user role = record { workspace_id = ws; user_id = user; role_id = role }

abbrev named : Uuid → String → Named
named id name = record { id = id; name = name }

abbrev viewer : String
viewer = "viewer"

abbrev tables : Roles
tables = record {
  workspace_members = member 2 4 10 ∷ member 1 4 11 ∷ [];
  roles = named 10 "owner" ∷ named 11 viewer ∷ [];
  role_permissions = record { role_id = 10; permission_id = 20 } ∷ [];
  permissions = named 20 "apps:create" ∷ [];
}

-- The owner of workspace 2 may do nothing in workspace 1.
check_permission-IsGranted_example :
    (check_permission tables ana "apps:create" ≡ ok tt)
    ↔ ((false ≡ true) ⊎ IsGranted tables 1 4 "apps:create")
check_permission-IsGranted_example = check_permission-IsGranted tables ana 1 "apps:create" refl
