-- ===== src/Examples/Accounts.antt =====
-- Accounts of backend/src/controllers/auth_controller.rs at concrete inputs.
use project_hermes.Base.{
  ◌∙◌, String, ◌≡◌, refl, sym, ap, ◌≢◌, ◌⊎◌, inl, inr, Bool, true, false, ◌&&◌, not, Option, none,
  some, [], ◌∷◌, arith, str_eq, str_eq_iff, Uuid, secs, ◌==◌, if◌then◌else◌, ==_iff, Bool-cases,
}
use project_hermes.Base.Int.{ℤ, pos, negsuc}
use project_hermes.Base.AppError.{ok, err, literal, auth}
use project_hermes.Access.{UserStatus, Claims, Parts, from_request_parts, token_of}
use project_hermes.Locks.{check_rate_limit, bump}
use project_hermes.Base.Assoc.{lookup, insert}
use project_hermes.Accounts.{
  User, Resources, Db, Origin, Crates, TokenBundle, login, refresh_session, switch_workspace, issue,
  throttle,
}
use project_hermes.Accounts.Admin.{toggle_user_suspend}
use project_hermes.Accounts.Sessions.{IsLogin, login-ok}
use project_hermes.Accounts.Replay.{Request, refresh, switch, answer, run, refresh_session-once}
use project_hermes.Accounts.Suspended.{suspended-refused}

abbrev ana : User
ana = record {
  id = 7;
  username = "ana";
  email = "ana@example.org";
  password_hash = "secret";
  status = UserStatus.active;
  is_super_admin = false;
  current_workspace_id = none;
  last_login_at = none;
  last_login_ip = none;
  last_login_user_agent = none;
}

abbrev pub no_resources : Resources
no_resources = record {
  environment_variables = [];
  storage_buckets = [];
  storage_objects = [];
  databases = [];
  database_backups = [];
  apps = [];
  app_builds = [];
  app_instances = [];
  app_volumes = [];
  projects = [];
  domains = [];
  cron_jobs = [];
  cloudflare_credentials = [];
}

abbrev tables : Db
tables = record {
  resources = no_resources;
  users = ana ∷ [];
  workspaces = [];
  workspace_members = record { workspace_id = 1; user_id = 7; role_id = 2 } ∷ [];
  roles = [];
  role_permissions = [];
  permissions = [];
  refresh_tokens = record { user_id = 7; token = "r1"; expires_at = secs 500 } ∷ [];
  auth_audit_logs = [];
  counters = [];
}

-- The claims of the token that another user gets after the suspension.
abbrev ben_claims : Claims
ben_claims = record {
  sub = 8;
  username = "ben";
  email = "ben@example.org";
  status = UserStatus.active;
  is_super_admin = false;
  current_workspace_id = some 1;
  exp = pos 910;
}

abbrev is_active : UserStatus → Bool
is_active UserStatus.active = true
is_active _ = false

abbrev is_one : Option Uuid → Bool
is_one none = false
is_one (some ws) = ws == 1

abbrev is_910 : ℤ → Bool
is_910 (pos n) = n == 910
is_910 (negsuc n) = false

abbrev is_it : Claims → Bool
is_it c =
    c.sub == 8
    && str_eq c.username "ben"
    && str_eq c.email "ben@example.org"
    && is_active c.status
    && not c.is_super_admin
    && is_one c.current_workspace_id
    && is_910 c.exp

active_status : (s : UserStatus) → is_active s ≡ true → s ≡ UserStatus.active
active_status UserStatus.active h = refl
active_status UserStatus.suspended h = absurd (cc)
active_status UserStatus.pending_verification h = absurd (cc)

one_workspace : (o : Option Uuid) → is_one o ≡ true → o ≡ some 1
one_workspace none h = absurd (cc)
one_workspace (some ws) h = ap some ((==_iff ws 1).0 h)

exp_910 : (z : ℤ) → is_910 z ≡ true → z ≡ pos 910
exp_910 (pos n) h = ap pos ((==_iff n 910).0 h)
exp_910 (negsuc n) h = absurd (cc)

it_is : (c : Claims) → is_it c ≡ true → c ≡ ben_claims
it_is c h = ground (
  arith,
  str_eq_iff c.username "ben",
  str_eq_iff c.email "ben@example.org",
  active_status c.status,
  one_workspace c.current_workspace_id,
  exp_910 c.exp,
)

abbrev lib : (Claims → String ⊎ String) → Crates
lib encode = record {
  verify_password = λ password hash. ok (str_eq password hash);
  hash_password = λ password. ok password;
  encode = encode;
  sha256 = λ s. s;
  lower = λ s. s;
  access_expiry_secs = 900;
  refresh_expiry_secs = 604800;
}

abbrev always : Claims → String ⊎ String
always c = inr "t0k"

abbrev browser : Origin
browser = record { audits = true; client_ip = some "10.0.0.1"; user_agent = none }

abbrev bundle : TokenBundle
bundle = record { access_token = "t0k"; refresh_token = "r2"; refresh_expires_at = secs 604810 }

logged : (login (lib always) true (secs 10) browser "ana" "secret" "r2" tables).1 ≡ ok bundle
unfolding login issue check_rate_limit bump lookup insert
logged = refl

login-ok_example :
    ((throttle (lib always) true (secs 10) browser tables).1 ≡ true)
    × IsLogin
        (lib always)
        "ana"
        "secret"
        browser
        tables
        (login (lib always) true (secs 10) browser "ana" "secret" "r2" tables).0
        bundle
login-ok_example = login-ok (lib always) true (secs 10) browser "ana" "secret" "r2" tables logged

refreshed : (refresh_session (lib always) (secs 10) "r1" "r2" tables).1 ≡ ok bundle
unfolding refresh_session issue
refreshed = refl

abbrev later_request : Request
later_request = refresh (secs 15) "r2" "r3"

refresh_session-once_example :
    refresh_session (lib always) (secs 20) "r1" "r4" (
      run
        (lib always)
        (refresh_session (lib always) (secs 10) "r1" "r2" tables).0
        (later_request ∷ []))
    ≡ (
      run
          (lib always)
          (refresh_session (lib always) (secs 10) "r1" "r2" tables).0
          (later_request ∷ []),
      err (auth (literal "Invalid or expired refresh token.")),
    )
refresh_session-once_example =
    refresh_session-once (lib always) (secs 10) (secs 20) "r1" "r2" "r4" tables (later_request ∷ [])
      (omega arith) refl (refl, tt) refreshed

abbrev ben : User
ben = record ana {
  id = 8;
  username = "ben";
  email = "ben@example.org";
  current_workspace_id = none;
}

abbrev two_users : Db
two_users = record tables {
  users = ana ∷ ben ∷ [];
  workspace_members =
      record { workspace_id = 1; user_id = 7; role_id = 2 }
      ∷ record { workspace_id = 1; user_id = 8; role_id = 2 }
      ∷ [];
}

abbrev admin : Claims
admin = record ben_claims { sub = 9; is_super_admin = true }

abbrev only_ben : Claims → String ⊎ String
only_ben c = if is_it c then inr "t0k" else inl "no"

abbrev decode : String → Option Claims
decode t = if str_eq t "t0k" then some ben_claims else none

inr_eq : (a b : String) → ◌≡◌ {A = String ⊎ String} (inr a) (inr b) → a ≡ b
inr_eq a b e = cc

decodes : (c k : Claims) (t : String) → only_ben c ≡ inr t → decode t ≡ some k → k ≡ c
decodes c k t h e = elim (Bool-cases (is_it c)) [
  | inl it ↦ elim (Bool-cases (str_eq t "t0k")) [
    | inl same ↦ let e' = rw same at e in some_eq ben_claims k e' ∙ sym (it_is c it)
    | inr other ↦ absurd (let e' = rw other at e in cc)
  ]
  | inr other ↦ absurd (let h' = rw other at h in cc)
]
  where
    some_eq : (a b : Claims) → some a ≡ some b → b ≡ a
    some_eq a b e = cc

suspended : (toggle_user_suspend admin 7 two_users).1 ≡ ok UserStatus.suspended
unfolding toggle_user_suspend
suspended = refl

abbrev request : Request
request = switch (secs 10) ben_claims 1 "r2"

answered :
    (answer
      (lib only_ben)
      (run (lib only_ben) (toggle_user_suspend admin 7 two_users).0 [])
      request).1
    ≡ ok bundle
unfolding toggle_user_suspend switch_workspace issue
answered = refl

abbrev parts : Parts
parts = record { authorization = some "Bearer t0k"; query = none; path = "/api/v1/apps" }

given : token_of parts.authorization parts.query ≡ ok bundle.access_token
unfolding token_of
given = refl

admitted : from_request_parts decode parts ≡ ok ben_claims
unfolding from_request_parts token_of
admitted = refl

suspended-refused_example : ben_claims.sub ≢ 7
suspended-refused_example =
    suspended-refused (lib only_ben) decode decodes admin 7 two_users suspended [] request answered
      parts given admitted
