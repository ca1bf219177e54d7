-- ===== src/AppEnv.antt =====
-- backend/src/utils/app_env.rs: the environment of an app, from the variables of its project that it
-- links and its own, and the variables that resources publish into a project. Decryption is an
-- argument, as is how numbers are written. A `HashMap` is read in any order of its entries.
pub mod Sorting
pub mod Resolution
pub mod Build
pub mod Republish
use project_hermes.Base.{
  ℕ, zero, suc, ◌+◌, ◌-◌, ◌*◌, ◌/◌, ◌%◌, ◌^◌, ◌≤◌, ◌<◌, min, max, String, ◌≡◌, refl, sym, ap, ◌∙◌,
  subst, ◌≢◌, ◌↔◌, ◌⊎◌, inl, inr, Bool, true, false, ◌&&◌, ◌||◌, not, Option, none, some, List, [],
  ◌∷◌, ◌++◌, arith, str_eq, str_eq_iff, Uuid, Time, secs, ltb, leb, ◌==◌, if◌then◌else◌, ltb→lt,
  lt→ltb, leb→le, ==_iff, tests, Bool-cases, Option-cases, length, select, count_where, any, find,
  update_where, delete_where, All, map, All-append, All-if, All-update_where, All-delete_where,
  All-find,
}
use project_hermes.Base.Int.{ℤ}
use project_hermes.Base.Assoc.{HashMap, lookup, insert}
use project_hermes.Base.TextOrder.{text_lt}

-- A row of project_env_variables.
pub record ProjectEnv : Type 0 where
  pub id : Uuid
  pub workspace_id : Uuid
  pub project_id : Uuid
  pub key : String
  pub encrypted_value : String
  pub nonce : String
  pub is_secret : Bool
  pub source : Option String
  pub source_id : Option Uuid

-- A row of app_env_links or of cron_env_links.
pub record EnvLink : Type 0 where
  pub owner_id : Uuid
  pub project_env_id : Uuid

-- A row of environment_variables or of cron_env_variables.
pub record EnvVariable : Type 0 where
  pub owner_id : Uuid
  pub key : String
  pub encrypted_value : String
  pub nonce : String
  pub is_secret : Bool

-- What a query of variables returns of a row.
pub record Encrypted : Type 0 where
  pub key : String
  pub encrypted_value : String
  pub nonce : String

abbrev pub of_project : ProjectEnv → Encrypted
of_project p = record { key = p.key; encrypted_value = p.encrypted_value; nonce = p.nonce }

abbrev pub of_variable : EnvVariable → Encrypted
of_variable v = record { key = v.key; encrypted_value = v.encrypted_value; nonce = v.nonce }

-- The JOIN of the links of an owner with the project's variables that `p` admits.
abbrev pub joined : (ProjectEnv → Bool) → List ProjectEnv → EnvLink → List Encrypted
joined p [] l = []
joined p (v ∷ vs) l =
    let rest = joined p vs l in
    if v.id == l.project_env_id && p v then of_project v ∷ rest else rest

abbrev pub linked : (ProjectEnv → Bool) → List ProjectEnv → Uuid → List EnvLink → List Encrypted
linked p vs owner [] = []
linked p vs owner (l ∷ links) =
    let rest = linked p vs owner links in
    if l.owner_id == owner then joined p vs l ++ rest else rest

abbrev pub own : (EnvVariable → Bool) → Uuid → List EnvVariable → List Encrypted
own p owner [] = []
own p owner (v ∷ vs) =
    let rest = own p owner vs in if v.owner_id == owner && p v then of_variable v ∷ rest else rest

-- The tables; a query of them that fails reads as no rows.
pub record EnvDb : Type 0 where
  pub project_env_variables : List ProjectEnv
  pub app_env_links : List EnvLink
  pub environment_variables : List EnvVariable
  pub cron_env_links : List EnvLink
  pub cron_env_variables : List EnvVariable

abbrev pub if_answered {ℓ} : {A : Type ℓ} → Bool → List A → List A
if_answered true rows = rows
if_answered false rows = []

-- `sort_by` the key: an insertion that keeps the order of equal keys.
abbrev pub insert_sorted : String × String → List (String × String) → List (String × String)
insert_sorted (k, v) [] = (k, v) ∷ []
insert_sorted (k, v) ((j, w) ∷ out) =
    let rest = insert_sorted (k, v) out in
    if text_lt j k then (j, w) ∷ rest else (k, v) ∷ (j, w) ∷ out

unfoldable pub finalize : HashMap String → List (String × String)
finalize [] = []
finalize (entry ∷ map) = insert_sorted entry (finalize map)

abbrev pub every {ℓ} : {A : Type ℓ} → A → Bool
every a = true

abbrev pub public_project : ProjectEnv → Bool
public_project v = not v.is_secret

abbrev pub public_variable : EnvVariable → Bool
public_variable v = not v.is_secret

module _ (decrypt : String → String → Option String) where
  abbrev pub insert_some : String → Option String → HashMap String → HashMap String
  insert_some key none map = map
  insert_some key (some value) map = insert key value map

  -- The loop over the rows: a value that cannot be decrypted is passed over.
  unfoldable pub insert_rows : List Encrypted → HashMap String → HashMap String
  insert_rows [] map = map
  insert_rows (r ∷ rows) map =
      insert_rows rows (insert_some r.key (decrypt r.encrypted_value r.nonce) map)

  abbrev pub merged : List Encrypted → List Encrypted → List (String × String)
  merged of_links of_own = finalize (insert_rows of_own (insert_rows of_links []))

  -- The two flags are that the queries are answered.
  unfoldable pub resolve_instance_env : Bool → Bool → EnvDb → Uuid → List (String × String)
  resolve_instance_env first second d instance_id =
      merged (if_answered first (linked every d.project_env_variables instance_id d.app_env_links))
        (if_answered second (own every instance_id d.environment_variables))

  unfoldable pub resolve_cron_env : Bool → Bool → EnvDb → Uuid → List (String × String)
  resolve_cron_env first second d cron_job_id =
      merged (if_answered first (linked every d.project_env_variables cron_job_id d.cron_env_links))
        (if_answered second (own every cron_job_id d.cron_env_variables))

  unfoldable pub resolve_instance_build_env : Bool → Bool → EnvDb → Uuid → List (String × String)
  resolve_instance_build_env first second d instance_id =
      merged
        (if_answered first
          (linked public_project d.project_env_variables instance_id d.app_env_links))
        (if_answered second (own public_variable instance_id d.environment_variables))

abbrev pub has_key : String → String × String → Bool
has_key key (k, v) = str_eq k key

-- `if !envs.iter().any(...) { envs.push(...) }`
abbrev pub push_default : String → String → List (String × String) → List (String × String)
push_default key value envs = if any (has_key key) envs then envs else envs ++ (key, value) ∷ []

abbrev pub note_default : String → String → List (String × String) → List (String × String)
note_default key value envs = if any (has_key key) envs then [] else (key, value) ∷ []

-- The environment after the call, and the entries that were injected, in order; `port` is the port in
-- digits.
unfoldable pub apply_runtime_port_defaults :
    String → List (String × String) → List (String × String) × List (String × String)
apply_runtime_port_defaults port envs =
    let with_port = push_default "PORT" port envs in
    (
      push_default "HOST" "0.0.0.0" with_port,
      note_default "PORT" port envs ++ note_default "HOST" "0.0.0.0" with_port,
    )

-- `project_id = $1 AND source = $2 AND source_id = $3`
abbrev pub same_text : Option String → String → Bool
same_text none s = false
same_text (some t) s = str_eq t s

abbrev pub same_uuid : Option Uuid → Uuid → Bool
same_uuid none id = false
same_uuid (some j) id = j == id

abbrev pub is_published : Uuid → String → Uuid → ProjectEnv → Bool
is_published project source source_id v =
    v.project_id == project && same_text v.source source && same_uuid v.source_id source_id

abbrev pub refreshed : String → String → Bool → ProjectEnv → ProjectEnv
refreshed enc nonce is_secret v = record v {
  encrypted_value = enc;
  nonce = nonce;
  is_secret = is_secret;
}

abbrev pub taken_over : String → String → Bool → String → Uuid → ProjectEnv → ProjectEnv
taken_over enc nonce is_secret source source_id v = record v {
  encrypted_value = enc;
  nonce = nonce;
  is_secret = is_secret;
  source = some source;
  source_id = some source_id;
}

abbrev pub has_project_key : Uuid → String → ProjectEnv → Bool
has_project_key project key v = v.project_id == project && str_eq v.key key

-- What a call publishes: a new id, the encrypted value, and the key that it suggests.
pub record Publication : Type 0 where
  pub id : Uuid
  pub encrypted_value : String
  pub nonce : String
  pub workspace_id : Uuid
  pub key : String
  pub is_secret : Bool

module _ (project : Uuid) (source : String) (source_id : Uuid) where
  abbrev pub published : Publication → ProjectEnv
  published p = record {
    id = p.id;
    workspace_id = p.workspace_id;
    project_id = project;
    key = p.key;
    encrypted_value = p.encrypted_value;
    nonce = p.nonce;
    is_secret = p.is_secret;
    source = some source;
    source_id = some source_id;
  }

  -- INSERT ... ON CONFLICT (project_id, key) DO UPDATE: the row of the key is taken over.
  abbrev pub insert_or_take :
      Publication → List ProjectEnv → Option ProjectEnv → List ProjectEnv × Uuid
  insert_or_take p rows none = (published p ∷ rows, p.id)
  insert_or_take p rows (some old) = (
    update_where (has_project_key project p.key)
        (taken_over p.encrypted_value p.nonce p.is_secret source source_id) rows,
    old.id,
  )

  abbrev pub refresh_or_insert :
      Publication → List ProjectEnv → Option ProjectEnv → List ProjectEnv × Uuid
  refresh_or_insert p rows (some old) = (
    update_where (λ (v : ProjectEnv). v.id == old.id)
        (refreshed p.encrypted_value p.nonce p.is_secret) rows,
    old.id,
  )
  refresh_or_insert p rows none = insert_or_take p rows (find (has_project_key project p.key) rows)

  -- The variables after the call, and the id of the variable.
  unfoldable pub publish_project_env : Publication → List ProjectEnv → List ProjectEnv × Uuid
  publish_project_env p rows =
      refresh_or_insert p rows (find (is_published project source source_id) rows)

abbrev pub is_of_resource : String → Uuid → ProjectEnv → Bool
is_of_resource source source_id v = same_text v.source source && same_uuid v.source_id source_id

abbrev pub links_to : String → Uuid → List ProjectEnv → EnvLink → Bool
links_to source source_id rows l =
    any (λ (v : ProjectEnv). v.id == l.project_env_id && is_of_resource source source_id v) rows

-- The instances that link a variable of the resource, and the tables after the DELETE, which the links
-- of its rows follow (ON DELETE CASCADE).
unfoldable pub unpublish_project_env : String → Uuid → EnvDb → EnvDb × List Uuid
unpublish_project_env source source_id d = (
  record d {
    project_env_variables = delete_where (is_of_resource source source_id) d.project_env_variables;
    app_env_links =
        delete_where (links_to source source_id d.project_env_variables) d.app_env_links;
    cron_env_links =
        delete_where (links_to source source_id d.project_env_variables) d.cron_env_links;
  },
  map (λ (l : EnvLink). l.owner_id)
      (select (links_to source source_id d.project_env_variables) d.app_env_links),
)
