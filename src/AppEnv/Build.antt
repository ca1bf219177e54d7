-- ===== src/AppEnv/Build.antt =====
-- What `resolve_instance_build_env` of backend/src/utils/app_env.rs bakes into an image.
use project_hermes.Base.{
  ◌≢◌, String, ◌≡◌, refl, sym, ap, ◌∙◌, ◌⊎◌, inl, inr, Bool, true, false, ◌&&◌, Option, none, some,
  List, [], ◌∷◌, ◌++◌, arith, str_eq, str_eq_iff, Uuid, ◌==◌, ==_iff, Bool-cases, Option-cases,
}
use mathlib.Core.List.{Memᴰ}
use project_hermes.Base.Assoc.{lookup}
use project_hermes.AppEnv.{
  ProjectEnv, EnvLink, EnvVariable, Encrypted, EnvDb, of_project, of_variable, joined, linked, own,
  if_answered, every, public_project, public_variable, resolve_instance_env,
  resolve_instance_build_env,
}
use project_hermes.AppEnv.Resolution.{later_or, value_for, last_value, merged-keys}

at_head {ℓ} : {A : Type ℓ} (r x : A) (xs : List A) → Memᴰ r (x ∷ xs) → (x ≡ r) ⊎ Memᴰ r xs
at_head r x xs (Memᴰ.head e) = inl (sym e)
at_head r x xs (Memᴰ.tail m) = inr m

in_append {ℓ} : {A : Type ℓ} (r : A) (xs ys : List A) → Memᴰ r (xs ++ ys) → Memᴰ r xs ⊎ Memᴰ r ys
in_append r [] ys m = inr m
in_append r (x ∷ xs) ys (Memᴰ.head e) = inl (Memᴰ.head e)
in_append r (x ∷ xs) ys (Memᴰ.tail m) = elim (in_append r xs ys m) [
  | inl left ↦ inl (Memᴰ.tail left)
  | inr right ↦ inr right
]

some_string : (v w : String) → some v ≡ some w → v ≡ w
some_string v w e = cc

module _ (decrypt : String → String → Option String) where
  abbrev pub IsLinked : Uuid → List EnvLink → Uuid → Type 0
  IsLinked owner links variable =
      (l : EnvLink) × Memᴰ l links × (l.owner_id ≡ owner) × (variable ≡ l.project_env_id)

  -- A variable that is no secret with the key and the value: one of the project that the instance
  -- links, or one of its own.
  abbrev pub IsPublicSource : EnvDb → Uuid → String → String → Type 0
  IsPublicSource d instance_id key value =
      ((p : ProjectEnv) × Memᴰ p d.project_env_variables
        × IsLinked instance_id d.app_env_links p.id
        × (p.is_secret ≡ false)
        × (p.key ≡ key)
        × (decrypt p.encrypted_value p.nonce ≡ some value))
      ⊎ ((v : EnvVariable) × Memᴰ v d.environment_variables
          × (v.owner_id ≡ instance_id)
          × (v.is_secret ≡ false)
          × (v.key ≡ key)
          × (decrypt v.encrypted_value v.nonce ≡ some value))

  of_row :
      (key value : String) (r : Encrypted)
      → value_for decrypt key r ≡ some value
      → (r.key ≡ key) × (decrypt r.encrypted_value r.nonce ≡ some value)
  of_row key value r h = elim (Bool-cases (str_eq r.key key)) [
    | inl same ↦ ((str_eq_iff r.key key).0 same, rw same at h)
    | inr other ↦ absurd (let h' = rw other at h in cc)
  ]

  -- The row that a value comes from.
  last_row :
      (key value : String) (rows : List Encrypted)
      → last_value decrypt key rows ≡ some value
      → (r : Encrypted) × Memᴰ r rows
        × (r.key ≡ key)
        × (decrypt r.encrypted_value r.nonce ≡ some value)
  last_row key value [] h = absurd (cc)
  last_row key value (r ∷ rows) h = elim (Option-cases (last_value decrypt key rows)) [
    | inl absent ↦
        let (same, found) = of_row key value r (rw absent at h) in (r, Memᴰ.head refl, same, found)
    | inr (w, later) ↦
        let h' = rw later at h in
        let equal : w ≡ value = cc in
        let (q, member, same, found) = last_row key value rows (rw equal at later) in
        (q, Memᴰ.tail member, same, found)
  ]

  public_own :
      (owner : Uuid) (r : Encrypted) (vs : List EnvVariable)
      → Memᴰ r (own public_variable owner vs)
      → (v : EnvVariable) × Memᴰ v vs
        × (v.owner_id ≡ owner)
        × (v.is_secret ≡ false)
        × (of_variable v ≡ r)
  public_own owner r [] m = elim m [ ]
  public_own owner r (v ∷ vs) m = elim (Bool-cases (v.owner_id == owner && public_variable v)) [
    | inl taken ↦ elim (at_head r (of_variable v) (own public_variable owner vs) (rw taken at m)) [
      | inl here ↦ (
        v,
        Memᴰ.head refl,
        ground (arith, taken, ==_iff v.owner_id owner),
        ground (arith, taken),
        here,
      )
      | inr later ↦
          let (w, member, mine, open_to_all, same) = public_own owner r vs later in
          (w, Memᴰ.tail member, mine, open_to_all, same)
    ]
    | inr left ↦
        let (w, member, mine, open_to_all, same) = public_own owner r vs (rw left at m) in
        (w, Memᴰ.tail member, mine, open_to_all, same)
  ]

  public_joined :
      (l : EnvLink) (r : Encrypted) (vs : List ProjectEnv)
      → Memᴰ r (joined public_project vs l)
      → (v : ProjectEnv) × Memᴰ v vs
        × (v.id ≡ l.project_env_id)
        × (v.is_secret ≡ false)
        × (of_project v ≡ r)
  public_joined l r [] m = elim m [ ]
  public_joined l r (v ∷ vs) m = elim (Bool-cases (v.id == l.project_env_id && public_project v)) [
    | inl taken ↦ elim (at_head r (of_project v) (joined public_project vs l) (rw taken at m)) [
      | inl here ↦ (
        v,
        Memᴰ.head refl,
        ground (arith, taken, ==_iff v.id l.project_env_id),
        ground (arith, taken),
        here,
      )
      | inr later ↦
          let (w, member, link, open_to_all, same) = public_joined l r vs later in
          (w, Memᴰ.tail member, link, open_to_all, same)
    ]
    | inr left ↦
        let (w, member, link, open_to_all, same) = public_joined l r vs (rw left at m) in
        (w, Memᴰ.tail member, link, open_to_all, same)
  ]

  public_linked :
      (vs : List ProjectEnv) (owner : Uuid) (r : Encrypted) (links : List EnvLink)
      → Memᴰ r (linked public_project vs owner links)
      → (v : ProjectEnv) × Memᴰ v vs
        × IsLinked owner links v.id
        × (v.is_secret ≡ false)
        × (of_project v ≡ r)
  public_linked vs owner r [] m = elim m [ ]
  public_linked vs owner r (l ∷ links) m = elim (Bool-cases (l.owner_id == owner)) [
    | inl mine ↦
        elim (in_append r (joined public_project vs l) (linked public_project vs owner links)
          (rw mine at m)) [
            | inl here ↦
                let (v, row, link, open_to_all, is_row) = public_joined l r vs here in
                (
                  v,
                  row,
                  (l, Memᴰ.head refl, (==_iff l.owner_id owner).0 mine, link),
                  open_to_all,
                  is_row,
                )
            | inr later ↦ under (public_linked vs owner r links later)
          ]
    | inr other ↦ under (public_linked vs owner r links (rw other at m))
  ]
    where
      under :
          ((v : ProjectEnv) × Memᴰ v vs
            × IsLinked owner links v.id
            × (v.is_secret ≡ false)
            × (of_project v ≡ r))
          → (v : ProjectEnv) × Memᴰ v vs
            × IsLinked owner (l ∷ links) v.id
            × (v.is_secret ≡ false)
            × (of_project v ≡ r)
      under (v, row, (k, member, mine, link), open_to_all, is_row) =
          (v, row, (k, Memᴰ.tail member, mine, link), open_to_all, is_row)

  answered {ℓ} :
      {A : Type ℓ} (r : A) (b : Bool) (rows : List A) → Memᴰ r (if_answered b rows) → Memᴰ r rows
  answered r true rows m = m
  answered r false rows m = elim m [ ]

  of_later :
      (a b : Option String) (value : String)
      → later_or a b ≡ some value
      → (a ≡ some value) ⊎ (b ≡ some value)
  of_later (some v) b value h = inl h
  of_later none b value h = inr h

  -- A value that is baked into an image under a key is the decrypted value of a variable of that
  -- key that is not secret: one of the instance, or one of the project that the instance links;
  -- also where a query fails.
  pub resolve_instance_build_env-public :
      (first second : Bool) (d : EnvDb) (instance_id : Uuid) (key value : String)
      → lookup key (resolve_instance_build_env decrypt first second d instance_id) ≡ some value
      → IsPublicSource d instance_id key value
  unfolding resolve_instance_build_env
  resolve_instance_build_env-public first second d instance_id key value h =
      let of_links =
        if_answered first
          (linked public_project d.project_env_variables instance_id d.app_env_links) in
      let of_own = if_answered second (own public_variable instance_id d.environment_variables) in
      let h' = sym ((merged-keys decrypt of_links of_own).1 key) ∙ h in
      elim (of_later (last_value decrypt key of_own) (last_value decrypt key of_links) value h') [
        | inl mine ↦
            let (r, member, same, found) = last_row key value of_own mine in
            let (v, row, owner, open_to_all, is_row) =
              public_own instance_id r d.environment_variables (answered r second _ member) in
            inr (
              v,
              row,
              owner,
              open_to_all,
              ap (λ (e : Encrypted). e.key) is_row ∙ same,
              ap (λ (e : Encrypted). decrypt e.encrypted_value e.nonce) is_row ∙ found,
            )
        | inr shared ↦
            let (r, member, same, found) = last_row key value of_links shared in
            let (v, row, owner, open_to_all, is_row) =
              public_linked d.project_env_variables instance_id r d.app_env_links
                (answered r first _ member) in
            inl (
              v,
              row,
              owner,
              open_to_all,
              ap (λ (e : Encrypted). e.key) is_row ∙ same,
              ap (λ (e : Encrypted). decrypt e.encrypted_value e.nonce) is_row ∙ found,
            )
      ]

  -- Where an instance's own variable of a key is secret and a linked one of that key is not, the
  -- image is built with the value of the linked one and the app runs with the other, so that the
  -- two environments differ at the key, if the two values differ.
  pub resolve_instance_build_env-shadowed :
      (d : EnvDb) (instance_id : Uuid) (key baked secret : String)
      → last_value decrypt key (own public_variable instance_id d.environment_variables) ≡ none
      → last_value decrypt key
          (linked public_project d.project_env_variables instance_id d.app_env_links)
        ≡ some baked
      → last_value decrypt key (own every instance_id d.environment_variables) ≡ some secret
      → baked ≢ secret
      → (lookup key (resolve_instance_build_env decrypt true true d instance_id) ≡ some baked)
        × (lookup key (resolve_instance_env decrypt true true d instance_id) ≡ some secret)
        × (lookup key (resolve_instance_build_env decrypt true true d instance_id)
            ≢ lookup key (resolve_instance_env decrypt true true d instance_id))
  unfolding resolve_instance_build_env resolve_instance_env
  resolve_instance_build_env-shadowed d instance_id key baked secret no_own shared own_secret
        apart =
      let built = (merged-keys decrypt _ _).1 key ∙ rw (no_own, shared) refl in
      let effective = (merged-keys decrypt _ _).1 key ∙ rw own_secret refl in
      (built, effective, λ same. apart (some_string baked secret (sym built ∙ same ∙ effective)))
