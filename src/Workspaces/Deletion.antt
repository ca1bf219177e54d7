-- ===== src/Workspaces/Deletion.antt =====
-- What `delete_workspace` of backend/src/controllers/workspace_controller.rs leaves behind.
use project_hermes.Base.{
  ◌≡◌, refl, ap, ◌∙◌, subst, ◌⊎◌, inl, inr, Bool, true, false, some, List, [], ◌∷◌, arith, Uuid,
  ◌==◌, if◌then◌else◌, Bool-cases, Option-cases, any, find, update_where, delete_where,
}
use project_hermes.Base.AppError.{Result, ok}
use project_hermes.Base.Results.{guard_bind, unit_bind}
use project_hermes.Access.{Claims, Named, WorkspaceMember}
use project_hermes.Accounts.{User, Workspace, Resources, Db}
use project_hermes.Workspaces.{
  in_workspace, is_of, is_created_in, is_cron_in, purge, is_selected, has_selected, has_none,
  deselected, workspace_of, reselected, role_named, owns, remove_rows, delete_workspace,
}

abbrev pub is_in : Uuid → WorkspaceMember → Bool
is_in ws m = m.workspace_id == ws

-- No row of a table that the handler empties is of the workspace, and what is left of the two others.
pub record IsPurged (ws : Uuid) (before after : Resources) : Type 0 where
  pub environment_variables : any (is_of ws) after.environment_variables ≡ false
  pub storage_objects : any (in_workspace before.storage_buckets ws) after.storage_objects ≡ false
  pub storage_buckets : any (is_of ws) after.storage_buckets ≡ false
  pub database_backups : any (in_workspace before.databases ws) after.database_backups ≡ false
  pub databases : any (is_of ws) after.databases ≡ false
  pub app_builds : any (in_workspace before.apps ws) after.app_builds ≡ false
  pub app_instances : any (in_workspace before.apps ws) after.app_instances ≡ false
  pub app_volumes : any (is_of ws) after.app_volumes ≡ false
  pub apps : any (is_of ws) after.apps ≡ false
  pub projects : any (is_created_in ws) after.projects ≡ false
  pub domains : any (is_created_in ws) after.domains ≡ false
  pub cron_jobs : after.cron_jobs ≡ delete_where (is_cron_in before.apps ws) before.cron_jobs
  pub cloudflare_credentials : after.cloudflare_credentials ≡ before.cloudflare_credentials

deleted_none {ℓ} : {A : Type ℓ} (p : A → Bool) (xs : List A) → any p (delete_where p xs) ≡ false
deleted_none p [] = refl
deleted_none p (x ∷ xs) = elim (Bool-cases (p x)) [
  | inl gone ↦ rw gone (deleted_none p xs)
  | inr kept ↦ rw kept (rw kept (deleted_none p xs))
]

purge-IsPurged : (ws : Uuid) (r : Resources) → IsPurged ws r (purge ws r)
unfolding purge
purge-IsPurged ws r = record {
  environment_variables = deleted_none (is_of ws) r.environment_variables;
  storage_objects = deleted_none (in_workspace r.storage_buckets ws) r.storage_objects;
  storage_buckets = deleted_none (is_of ws) r.storage_buckets;
  database_backups = deleted_none (in_workspace r.databases ws) r.database_backups;
  databases = deleted_none (is_of ws) r.databases;
  app_builds = deleted_none (in_workspace r.apps ws) r.app_builds;
  app_instances = deleted_none (in_workspace r.apps ws) r.app_instances;
  app_volumes = deleted_none (is_of ws) r.app_volumes;
  apps = deleted_none (is_of ws) r.apps;
  projects = deleted_none (is_created_in ws) r.projects;
  domains = deleted_none (is_created_in ws) r.domains;
  cron_jobs = refl;
  cloudflare_credentials = refl;
}

some_user : (x u : User) → some x ≡ some u → x ≡ u
some_user x u e = cc

ok_db : {a b : Db} → ok a ≡ ok b → a ≡ b
ok_db e = cc

module _ (ws : Uuid) (members : List WorkspaceMember)
    (none_in : any (is_in ws) members ≡ false) where
  -- A workspace chosen by a membership that is left is another.
  other_chosen :
      (id : Uuid) (rest : List WorkspaceMember)
      → any (is_in ws) rest ≡ false
      → is_selected ws (workspace_of (find (λ (m : WorkspaceMember). m.user_id == id) rest)) ≡ false
  other_chosen id [] h = refl
  other_chosen id (m ∷ rest) h = elim (Bool-cases (m.workspace_id == ws)) [
    | inl here ↦ absurd (ground (arith, here))
    | inr apart ↦ elim (Bool-cases (m.user_id == id)) [
      | inl mine ↦ rw mine apart
      | inr other ↦ rw other (other_chosen id rest (rw apart at h))
    ]
  ]

  abbrev settled : User → User
  settled u =
      let v = if has_selected ws u then deselected u else u in
      if has_none v then reselected members v else v

  settled_other : (u : User) → has_selected ws (settled u) ≡ false
  settled_other u = elim (Bool-cases (has_selected ws u)) [
    | inl here ↦ rw here (other_chosen u.id members none_in)
    | inr apart ↦ elim (Bool-cases (has_none u)) [
      | inl unset ↦ rw (apart, unset) (other_chosen u.id members none_in)
      | inr set ↦ rw (apart, set) apart
    ]
  ]

  abbrev settle : List User → List User
  settle users =
      update_where has_none (reselected members) (update_where (has_selected ws) deselected users)

  none_selected : (users : List User) → any (has_selected ws) (settle users) ≡ false
  none_selected [] = refl
  none_selected (u ∷ users) = rw (settled_other u) (none_selected users)

  settled-id : (u : User) → (settled u).id ≡ u.id
  settled-id u = elim (Bool-cases (has_selected ws u)) [
    | inl here ↦ rw here refl
    | inr apart ↦ elim (Bool-cases (has_none u)) [
      | inl unset ↦ rw (apart, unset) refl
      | inr set ↦ rw (apart, set) refl
    ]
  ]

  find-settled :
      (id : Uuid) (users : List User) {u : User}
      → find (λ (u : User). u.id == id) users ≡ some u
      → find (λ (u : User). u.id == id) (settle users) ≡ some (settled u)
  find-settled id [] e = absurd (cc)
  find-settled id (x ∷ users) {u = u} e = elim (Bool-cases (x.id == id)) [
    | inl here ↦
        let e' = rw here at e in
        let same : x ≡ u = some_user x u e' in
        rw (settled-id x, here) (ap (λ (v : User). some (settled v)) same)
    | inr apart ↦ let e' = rw apart at e in rw (settled-id x, apart) (find-settled id users e')
  ]

pub record IsDeleted (ws : Uuid) (before after : Db) : Type 0 where
  pub resources : IsPurged ws before.resources after.resources
  pub workspaces : any (λ (w : Workspace). w.id == ws) after.workspaces ≡ false
  pub members : any (is_in ws) after.workspace_members ≡ false
  pub selections : any (has_selected ws) after.users ≡ false
  pub moved :
      (id : Uuid) (u : User)
      → find (λ (u : User). u.id == id) before.users ≡ some u
      → has_selected ws u ≡ true
      → (v : User) × (find (λ (u : User). u.id == id) after.users ≡ some v)
        × (v.current_workspace_id
            ≡ workspace_of
                (find (λ (m : WorkspaceMember). m.user_id == u.id) after.workspace_members))
  pub kept :
      (id : Uuid) (u : User)
      → find (λ (u : User). u.id == id) before.users ≡ some u
      → has_selected ws u ≡ false
      → has_none u ≡ false
      → find (λ (u : User). u.id == id) after.users ≡ some u

remove_rows-IsDeleted : (ws : Uuid) (d : Db) → IsDeleted ws d (remove_rows ws d)
unfolding remove_rows
remove_rows-IsDeleted ws d =
    let members = delete_where (is_in ws) d.workspace_members in
    let none_in = deleted_none (is_in ws) d.workspace_members in
    record {
      resources = purge-IsPurged ws d.resources;
      workspaces = deleted_none (λ (w : Workspace). w.id == ws) d.workspaces;
      members = none_in;
      selections = none_selected ws members none_in d.users;
      moved = λ id u found here. (
        settled ws members none_in u,
        find-settled ws members none_in id d.users found,
        rw here refl,
      );
      kept = λ id u found apart set.
          find-settled ws members none_in id d.users found ∙ rw (apart, set) refl;
    }

-- A deletion that succeeds was asked for by a super admin or by a member with the role of an owner;
-- after it no row of the workspace is left in workspaces, workspace_members and the eleven tables
-- of resources that the handler empties, of cron_jobs only the rows of its apps are gone, and
-- cloudflare_credentials is as before; nobody has it selected, a user who had gets a workspace of a
-- membership that is left, or none, and a user with another selection is as before.
pub delete_workspace-IsDeleted :
    (claims : Claims) (ws : Uuid) (client : Result (Unit {0})) (d : Db) {d' : Db}
    → delete_workspace claims ws client d ≡ ok d'
    → ((claims.is_super_admin ≡ true)
        ⊎ ((owner : Named) × (role_named "owner" d ≡ some owner)
            × (any (owns ws claims.sub owner.id) d.workspace_members ≡ true)))
      × IsDeleted ws d d'
unfolding delete_workspace
delete_workspace-IsDeleted claims ws client d {d' = d'} e =
    elim (Bool-cases claims.is_super_admin) [
      | inl super ↦
          let h = rw super at e in
          let (answered, h1) = unit_bind _ _ h in
          (inl super, subst (IsDeleted ws d) (ok_db h1) (remove_rows-IsDeleted ws d))
      | inr plain ↦ elim (Option-cases (role_named "owner" d)) [
        | inl missing ↦ absurd (let h = rw (plain, missing) at e in cc)
        | inr (owner, named) ↦
            let h = rw (plain, named) at e in
            let (owning, h1) = guard_bind _ _ _ h in
            let (answered, h2) = unit_bind _ _ h1 in
            (
              inr (owner, named, owning),
              subst (IsDeleted ws d) (ok_db h2) (remove_rows-IsDeleted ws d),
            )
      ]
    ]
