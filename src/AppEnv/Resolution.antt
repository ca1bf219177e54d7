-- ===== src/AppEnv/Resolution.antt =====
-- What `resolve_instance_env` of backend/src/utils/app_env.rs yields, key by key.
use project_hermes.Base.{
  String, ◌≡◌, refl, sym, ap, ◌∙◌, subst, inl, inr, Bool, true, false, Option, none, some, List, [],
  ◌∷◌, ◌++◌, arith, str_eq, str_eq_iff, Uuid, if◌then◌else◌, Bool-cases, any, map,
}
use project_hermes.Base.Assoc.{HashMap, lookup, HasUniqueKeys, lookup-insert, insert-HasUniqueKeys}
use project_hermes.AppEnv.{
  Encrypted, EnvDb, linked, own, if_answered, every, insert_some, insert_rows, merged,
  resolve_instance_env, push_default, has_key, apply_runtime_port_defaults,
}
use project_hermes.AppEnv.Sorting.{IsAscending, lookup-finalize, finalize-IsAscending}

abbrev pub later_or : Option String → Option String → Option String
later_or (some v) earlier = some v
later_or none earlier = earlier

later_assoc : (a b c : Option String) → later_or a (later_or b c) ≡ later_or (later_or a b) c
later_assoc (some v) b c = refl
later_assoc none b c = refl

or_none : (a : Option String) → later_or a none ≡ a
or_none (some v) = refl
or_none none = refl

module _ (decrypt : String → String → Option String) where
  abbrev pub value_for : String → Encrypted → Option String
  value_for key r = if str_eq r.key key then decrypt r.encrypted_value r.nonce else none

  -- The value of the last row of the key that can be decrypted.
  abbrev pub last_value : String → List Encrypted → Option String
  last_value key [] = none
  last_value key (r ∷ rows) = later_or (last_value key rows) (value_for key r)

  some_inserted :
      (key k : String) (o : Option String) (map : HashMap String)
      → lookup key (insert_some decrypt k o map)
        ≡ later_or (if str_eq k key then o else none) (lookup key map)
  some_inserted key k none map = elim (Bool-cases (str_eq k key)) [
    | inl same ↦ rw same refl
    | inr other ↦ rw other refl
  ]
  some_inserted key k (some v) map =
      rw (lookup-insert k key v map)
        (elim (Bool-cases (str_eq k key)) [ inl same ↦ rw same refl | inr other ↦ rw other refl ])

  pub lookup-insert_rows :
      (key : String) (rows : List Encrypted) (map : HashMap String)
      → lookup key (insert_rows decrypt rows map) ≡ later_or (last_value key rows) (lookup key map)
  unfolding insert_rows
  lookup-insert_rows key [] map = refl
  lookup-insert_rows key (r ∷ rows) map =
      lookup-insert_rows key rows
        (insert_some decrypt r.key (decrypt r.encrypted_value r.nonce) map)
      ∙ ap (later_or (last_value key rows))
          (some_inserted key r.key (decrypt r.encrypted_value r.nonce) map)
      ∙ later_assoc (last_value key rows) (value_for key r) (lookup key map)

  some-HasUniqueKeys :
      (k : String) (o : Option String) (map : HashMap String)
      → HasUniqueKeys map
      → HasUniqueKeys (insert_some decrypt k o map)
  some-HasUniqueKeys k none map h = h
  some-HasUniqueKeys k (some v) map h = insert-HasUniqueKeys k v map h

  pub rows-HasUniqueKeys :
      (rows : List Encrypted) (map : HashMap String)
      → HasUniqueKeys map
      → HasUniqueKeys (insert_rows decrypt rows map)
  unfolding insert_rows
  rows-HasUniqueKeys [] map h = h
  rows-HasUniqueKeys (r ∷ rows) map h =
      rows-HasUniqueKeys rows _ (some-HasUniqueKeys r.key (decrypt r.encrypted_value r.nonce) map h)

  pub merged-keys :
      (of_links of_own : List Encrypted)
      → IsAscending (merged decrypt of_links of_own)
        × ((key : String)
            → lookup key (merged decrypt of_links of_own)
              ≡ later_or (last_value key of_own) (last_value key of_links))
  unfolding lookup
  merged-keys of_links of_own =
      let links = insert_rows decrypt of_links [] in
      let unique = rows-HasUniqueKeys of_own links (rows-HasUniqueKeys of_links [] tt) in
      (
        finalize-IsAscending (insert_rows decrypt of_own links) unique,
        λ key.
            lookup-finalize key (insert_rows decrypt of_own links) unique
            ∙ lookup-insert_rows key of_own links
            ∙ ap (later_or (last_value key of_own))
                (lookup-insert_rows key of_links [] ∙ or_none (last_value key of_links)),
      )

-- What the defaults add.
abbrev pub default_for : String → String → Option String
default_for port key =
    if str_eq "PORT" key then some port else if str_eq "HOST" key then some "0.0.0.0" else none

module _ (key other value : String) where
  any-lookup :
      (envs : List (String × String)) → any (has_key key) envs ≡ false → lookup key envs ≡ none
  unfolding lookup
  any-lookup [] h = refl
  any-lookup ((k, v) ∷ envs) h = ground (arith, any-lookup envs)

  found-lookup :
      (envs : List (String × String))
      → any (has_key key) envs ≡ true
      → (v : String) × (lookup key envs ≡ some v)
  unfolding lookup
  found-lookup [] h = absurd (cc)
  found-lookup ((k, v) ∷ envs) h = elim (Bool-cases (str_eq k key)) [
    | inl same ↦ (v, rw same refl)
    | inr apart ↦ let (w, found) = found-lookup envs (rw apart at h) in (w, rw apart found)
  ]

  abbrev given : Option String
  given = if str_eq key other then some value else none

  appended :
      (envs : List (String × String))
      → lookup other (envs ++ (key, value) ∷ []) ≡ later_or (lookup other envs) given
  unfolding lookup
  appended [] = refl
  appended ((k, v) ∷ envs) = elim (Bool-cases (str_eq k other)) [
    | inl same ↦ rw same refl
    | inr apart ↦ rw apart (appended envs)
  ]

  kept :
      (envs : List (String × String))
      → any (has_key key) envs ≡ true
      → lookup other envs ≡ later_or (lookup other envs) given
  kept envs h = elim (Bool-cases (str_eq key other)) [
    | inl same ↦
        let (v, found) = found-lookup envs h in
        let found' = subst (λ t. lookup t envs ≡ some v) ((str_eq_iff key other).0 same) found in
        rw found' refl
    | inr apart ↦ rw apart (sym (or_none (lookup other envs)))
  ]

  lookup-push_default :
      (envs : List (String × String))
      → lookup other (push_default key value envs) ≡ later_or (lookup other envs) given
  lookup-push_default envs = elim (Bool-cases (any (has_key key) envs)) [
    | inl there ↦ rw there (kept envs there)
    | inr absent ↦ rw absent (appended envs)
  ]

lookup-defaults :
    (port key : String) (envs : List (String × String))
    → lookup key (apply_runtime_port_defaults port envs).0
      ≡ later_or (lookup key envs) (default_for port key)
unfolding apply_runtime_port_defaults
lookup-defaults port key envs =
    lookup-push_default "HOST" key "0.0.0.0" (push_default "PORT" port envs)
    ∙ ap (λ (o : Option String). later_or o (if str_eq "HOST" key then some "0.0.0.0" else none))
        (lookup-push_default "PORT" key port envs)
    ∙ sym (later_assoc (lookup key envs) _ _)
    ∙ ap (later_or (lookup key envs)) (first_default port key)
  where
    first_default :
        (port key : String)
        → later_or
            (if str_eq "PORT" key then some port else none)
            (if str_eq "HOST" key then some "0.0.0.0" else none)
          ≡ default_for port key
    first_default port key = elim (Bool-cases (str_eq "PORT" key)) [
      | inl same ↦ rw same refl
      | inr apart ↦ rw apart refl
    ]

-- The value of any key in the environment of a deployed instance is that of its last own variable
-- of the key that can be decrypted; without one that of the last linked variable; and without
-- either the default of PORT or HOST; a query that fails counts as no rows.
pub runtime_env-lookup :
    (decrypt : String → String → Option String) (first second : Bool) (d : EnvDb)
    (instance_id : Uuid) (port key : String)
    → lookup key
        (apply_runtime_port_defaults port
          (resolve_instance_env decrypt first second d instance_id)).0
      ≡ later_or
          (later_or
            (last_value decrypt key
              (if_answered second (own every instance_id d.environment_variables)))
            (last_value decrypt key (
              if_answered first
                (linked every d.project_env_variables instance_id d.app_env_links))))
          (default_for port key)
unfolding resolve_instance_env
runtime_env-lookup decrypt first second d instance_id port key =
    lookup-defaults port key _
    ∙ ap (λ (o : Option String). later_or o (default_for port key))
        ((merged-keys decrypt
            (if_answered first (linked every d.project_env_variables instance_id d.app_env_links))
            (if_answered second (own every instance_id d.environment_variables))).1
          key)
