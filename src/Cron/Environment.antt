-- ===== src/Cron/Environment.antt =====
-- The environment of the job of an app (backend/src/utils/cron.rs), key by key.
use project_hermes.Base.{
  String, ◌≡◌, refl, ap, ◌∙◌, subst, inl, inr, Option, none, some, List, [], ◌∷◌, str_eq,
  str_eq_iff, Bool-cases,
}
use project_hermes.Base.Assoc.{
  HashMap, HasUniqueKeys, lookup, insert, lookup-insert, insert-HasUniqueKeys,
}
use project_hermes.AppEnv.{own, linked, every, resolve_instance_env, resolve_cron_env}
use project_hermes.AppEnv.Sorting.{IsAscending, IsAbove-absent, lookup-finalize}
use project_hermes.AppEnv.Resolution.{later_or, last_value, merged-keys}
use project_hermes.Cron.{Execution, insert_pairs, merge_env}
use project_hermes.Cron.Targets.{Calls, CronDb, CronInstance, app_cron_env, extra_env}

IsAscending-HasUniqueKeys : (xs : List (String × String)) → IsAscending xs → HasUniqueKeys xs
IsAscending-HasUniqueKeys [] h = tt
IsAscending-HasUniqueKeys ((k, v) ∷ xs) h =
    (IsAbove-absent k xs h.0, IsAscending-HasUniqueKeys xs h.1)

insert_pairs-HasUniqueKeys :
    (xs : List (String × String)) (m : HashMap String)
    → HasUniqueKeys m
    → HasUniqueKeys (insert_pairs xs m)
insert_pairs-HasUniqueKeys [] m h = h
insert_pairs-HasUniqueKeys ((k, v) ∷ xs) m h =
    insert_pairs-HasUniqueKeys xs (insert k v m) (insert-HasUniqueKeys k v m h)

lookup-insert_pairs :
    (key : String) (xs : List (String × String)) (m : HashMap String)
    → HasUniqueKeys xs
    → lookup key (insert_pairs xs m) ≡ later_or (lookup key xs) (lookup key m)
unfolding lookup
lookup-insert_pairs key [] m h = refl
lookup-insert_pairs key ((k, v) ∷ xs) m h =
    lookup-insert_pairs key xs (insert k v m) h.1
    ∙ ap (later_or (lookup key xs)) (lookup-insert k key v m)
    ∙ elim (Bool-cases (str_eq k key)) [
      | inl same ↦
          let gone = subst (λ t. lookup t xs ≡ none) ((str_eq_iff k key).0 same) h.0 in
          rw (same, gone) refl
      | inr other ↦ rw other refl
    ]

or_nothing : (o : Option String) → later_or o none ≡ o
or_nothing none = refl
or_nothing (some v) = refl

lookup-merge_env :
    (key : String) (base extra : List (String × String))
    → HasUniqueKeys base
    → HasUniqueKeys extra
    → lookup key (merge_env base extra) ≡ later_or (lookup key extra) (lookup key base)
unfolding merge_env lookup
lookup-merge_env key base extra hb he =
    lookup-finalize key (insert_pairs extra (insert_pairs base []))
      (insert_pairs-HasUniqueKeys extra _ (insert_pairs-HasUniqueKeys base [] tt))
    ∙ lookup-insert_pairs key extra (insert_pairs base []) he
    ∙ ap (later_or (lookup key extra))
        (lookup-insert_pairs key base [] hb ∙ or_nothing (lookup key base))

-- The value of any key in the environment of an app's job is the job's own variable of the key that
-- can be decrypted; without one that of a project's variable that the job links; then the
-- instance's own; and last one that the instance links.
pub app_cron_env-lookup :
    (c : Calls) (d : CronDb) (x : Execution) (command key : String) (i : CronInstance)
    → lookup key (app_cron_env c d x command i (extra_env c d x command))
      ≡ later_or
          (later_or (last_value c.decrypt key (own every x.job_id d.env.cron_env_variables)) (
            last_value c.decrypt key
              (linked every d.env.project_env_variables x.job_id d.env.cron_env_links)))
          (later_or (last_value c.decrypt key (own every i.id d.env.environment_variables)) (
            last_value c.decrypt key
              (linked every d.env.project_env_variables i.id d.env.app_env_links)))
unfolding resolve_instance_env resolve_cron_env
app_cron_env-lookup c d x command key i =
    let (base_order, base_keys) =
      merged-keys c.decrypt (linked every d.env.project_env_variables i.id d.env.app_env_links)
        (own every i.id d.env.environment_variables) in
    let (extra_order, extra_keys) =
      merged-keys c.decrypt (linked every d.env.project_env_variables x.job_id d.env.cron_env_links)
        (own every x.job_id d.env.cron_env_variables) in
    lookup-merge_env key _ _ (IsAscending-HasUniqueKeys _ base_order)
      (IsAscending-HasUniqueKeys _ extra_order)
    ∙ rw (base_keys key, extra_keys key) refl
