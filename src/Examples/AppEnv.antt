-- ===== src/Examples/AppEnv.antt =====
-- The environment of an instance (backend/src/utils/app_env.rs) at concrete inputs.
use project_hermes.Base.{
  ◌≢◌, str_eq_iff, String, ◌≡◌, refl, Bool, true, false, Option, none, some, List, [], ◌∷◌, arith,
  str_eq, str_eq_iff, Uuid, if◌then◌else◌, length, find,
}
use project_hermes.Base.Assoc.{HashMap, lookup, insert}
use project_hermes.AppEnv.{
  ProjectEnv, EnvVariable, EnvDb, Publication, linked, own, every, finalize, insert_rows,
  resolve_instance_env, resolve_instance_build_env, apply_runtime_port_defaults,
  publish_project_env,
}
use project_hermes.AppEnv.Resolution.{later_or, last_value, default_for, runtime_env-lookup}
use project_hermes.AppEnv.Build.{
  IsPublicSource, resolve_instance_build_env-public, resolve_instance_build_env-shadowed,
}
use project_hermes.AppEnv.Republish.{is_mine, run, Holds, publish_project_env-run}

abbrev decrypt : String → String → Option String
decrypt enc nonce = if str_eq nonce "bad" then none else some enc

abbrev project_variable : Uuid → String → String → Bool → ProjectEnv
project_variable id key value is_secret = record {
  id = id;
  workspace_id = 1;
  project_id = 2;
  key = key;
  encrypted_value = value;
  nonce = "";
  is_secret = is_secret;
  source = none;
  source_id = none;
}

abbrev variable : String → String → Bool → EnvVariable
variable key value is_secret = record {
  owner_id = 5;
  key = key;
  encrypted_value = value;
  nonce = "";
  is_secret = is_secret;
}

abbrev tables : EnvDb
tables = record {
  project_env_variables =
      project_variable 11 "API_URL" "http://shared" false
      ∷ project_variable 12 "DATABASE_URL" "postgres" true
      ∷ project_variable 13 "TOKEN" "public-token" false
      ∷ [];
  app_env_links =
      record { owner_id = 5; project_env_id = 11 }
      ∷ record { owner_id = 5; project_env_id = 12 }
      ∷ record { owner_id = 5; project_env_id = 13 }
      ∷ record { owner_id = 6; project_env_id = 12 }
      ∷ [];
  environment_variables = variable "PORT" "8080" false ∷ variable "TOKEN" "s3cret" true ∷ [];
  cron_env_links = [];
  cron_env_variables = [];
}

full :
    (apply_runtime_port_defaults "3000" (resolve_instance_env decrypt true true tables 5)).0
    ≡ ("API_URL", "http://shared")
      ∷ ("DATABASE_URL", "postgres")
      ∷ ("PORT", "8080")
      ∷ ("TOKEN", "s3cret")
      ∷ ("HOST", "0.0.0.0")
      ∷ []
unfolding apply_runtime_port_defaults resolve_instance_env finalize insert_rows insert
full = refl

build :
    resolve_instance_build_env decrypt true true tables 5
    ≡ ("API_URL", "http://shared") ∷ ("PORT", "8080") ∷ ("TOKEN", "public-token") ∷ []
unfolding resolve_instance_build_env finalize insert_rows insert
build = refl

runtime_env-lookup_example :
    lookup "PORT"
      (apply_runtime_port_defaults "3000" (resolve_instance_env decrypt true true tables 5)).0
    ≡ later_or
        (later_or (last_value decrypt "PORT" (own every 5 tables.environment_variables)) (
          last_value decrypt "PORT"
            (linked every tables.project_env_variables 5 tables.app_env_links)))
        (default_for "3000" "PORT")
runtime_env-lookup_example = runtime_env-lookup decrypt true true tables 5 "3000" "PORT"

abbrev one_order : HashMap String
one_order = ("B", "2") ∷ ("A", "1") ∷ []

abbrev other_order : HashMap String
other_order = ("A", "1") ∷ ("B", "2") ∷ []

same_entries : (key : String) → lookup key one_order ≡ lookup key other_order
unfolding lookup
same_entries key = ground (arith, str_eq_iff "A" key, str_eq_iff "B" key, str_eq_iff "A" "B")

baked :
    lookup "API_URL" (resolve_instance_build_env decrypt true true tables 5) ≡ some "http://shared"
unfolding resolve_instance_build_env finalize insert_rows insert lookup
baked = refl

resolve_instance_build_env-public_example :
    IsPublicSource decrypt tables 5 "API_URL" "http://shared"
resolve_instance_build_env-public_example =
    resolve_instance_build_env-public decrypt true true tables 5 "API_URL" "http://shared" baked

tokens_differ : ◌≢◌ {A = String} "public-token" "s3cret"
tokens_differ e = let same = (str_eq_iff "public-token" "s3cret").1 e in absurd (cc)

resolve_instance_build_env-shadowed_example :
    (lookup "TOKEN" (resolve_instance_build_env decrypt true true tables 5) ≡ some "public-token")
    × (lookup "TOKEN" (resolve_instance_env decrypt true true tables 5) ≡ some "s3cret")
    × (lookup "TOKEN" (resolve_instance_build_env decrypt true true tables 5)
        ≢ lookup "TOKEN" (resolve_instance_env decrypt true true tables 5))
resolve_instance_build_env-shadowed_example =
    resolve_instance_build_env-shadowed decrypt tables 5 "TOKEN" "public-token" "s3cret" refl refl
      refl tokens_differ

abbrev publication : Uuid → String → String → Publication
publication id key value = record {
  id = id;
  encrypted_value = value;
  nonce = "n";
  workspace_id = 1;
  key = key;
  is_secret = true;
}

abbrev first : List ProjectEnv × Uuid
first =
    publish_project_env 2 "database" 31 (publication 21 "DB_URL" "one") tables.project_env_variables

publish_project_env-run_example :
    (v : ProjectEnv) × (w : ProjectEnv) × (find (is_mine 2 "database" 31) first.0 ≡ some v)
    × (v.id ≡ first.1)
    × (find
          (is_mine 2 "database" 31)
          (run 2 "database" 31 (publication 22 "OTHER" "two" ∷ []) first.0)
        ≡ some w)
    × (w.id ≡ v.id)
    × (w.key ≡ v.key)
    × Holds 2 "database" 31 (publication 22 "OTHER" "two") w
    × (length (run 2 "database" 31 (publication 22 "OTHER" "two" ∷ []) first.0) ≡ length first.0)
publish_project_env-run_example =
    publish_project_env-run 2 "database" 31 (publication 21 "DB_URL" "one")
      (publication 22 "OTHER" "two" ∷ []) tables.project_env_variables
