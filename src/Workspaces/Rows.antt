-- ===== src/Workspaces/Rows.antt =====
-- The rows of members and workspaces under the statements of
-- backend/src/controllers/workspace_controller.rs.
use project_hermes.Base.{
  ◌≤◌, ◌≡◌, refl, sym, ap, ◌∙◌, inl, inr, Bool, true, false, ◌&&◌, Option, none, some, List, [],
  ◌∷◌, arith, Uuid, ◌==◌, Bool-cases, count_where, any, find, update_where, delete_where,
}
use project_hermes.Base.AppError.{ok}
use project_hermes.Access.{WorkspaceMember, Named, is_member}
use project_hermes.Accounts.{Workspace, Db}
use project_hermes.Workspaces.{with_role, role_named, workspace_by_id, owns}

abbrev pub is_row : Uuid → Workspace → Bool
is_row ws w = w.id == ws

module _ (ws creator role : Uuid) where
  abbrev pub Holds : List WorkspaceMember → Type 0
  Holds members = any (owns ws creator role) members ≡ true

  pub update-Holds :
      (v user new : Uuid) (members : List WorkspaceMember)
      → (v == ws && user == creator) ≡ false
      → Holds members
      → Holds (update_where (is_member v user) (with_role new) members)
  update-Holds v user new [] apart h = h
  update-Holds v user new (m ∷ members) apart h =
      ground (arith, update-Holds v user new members apart)

  pub delete-Holds :
      (v user : Uuid) (members : List WorkspaceMember)
      → (v == ws && user == creator) ≡ false
      → Holds members
      → Holds (delete_where (is_member v user) members)
  delete-Holds v user [] apart h = h
  delete-Holds v user (m ∷ members) apart h = ground (arith, delete-Holds v user members apart)

  pub purge-Holds :
      (v : Uuid) (members : List WorkspaceMember)
      → (v == ws) ≡ false
      → Holds members
      → Holds (delete_where (λ (m : WorkspaceMember). m.workspace_id == v) members)
  purge-Holds v [] apart h = h
  purge-Holds v (m ∷ members) apart h = ground (arith, purge-Holds v members apart)

  pub count_updated :
      (v user new : Uuid) (members : List WorkspaceMember)
      → count_where (is_member ws creator) (update_where (is_member v user) (with_role new) members)
        ≡ count_where (is_member ws creator) members
  count_updated v user new [] = refl
  count_updated v user new (m ∷ members) = ground (arith, count_updated v user new members)

  pub count_deleted :
      (p : WorkspaceMember → Bool) (members : List WorkspaceMember)
      → count_where (is_member ws creator) (delete_where p members)
        ≤ count_where (is_member ws creator) members
  count_deleted p [] = omega arith
  count_deleted p (m ∷ members) = ground (arith, count_deleted p members)

pub absent_count :
    (ws user : Uuid) (members : List WorkspaceMember)
    → any (is_member ws user) members ≡ false
    → count_where (is_member ws user) members ≡ 0
absent_count ws user [] h = refl
absent_count ws user (m ∷ members) h = ground (arith, absent_count ws user members)

pub same_pair :
    (ws v user other : Uuid) → (ws == v && user == other) ≡ true → (ws ≡ v) × (user ≡ other)
same_pair ws v user other h = (ground arith, ground arith)

pub find_kept :
    (v ws : Uuid) (rows : List Workspace)
    → (v == ws) ≡ false
    → find (is_row ws) (delete_where (is_row v) rows) ≡ find (is_row ws) rows
find_kept v ws [] apart = refl
find_kept v ws (w ∷ rows) apart = ground (arith, find_kept v ws rows apart)

pub find_gone :
    (v : Uuid) (rows : List Workspace) → find (is_row v) (delete_where (is_row v) rows) ≡ none
find_gone v [] = refl
find_gone v (w ∷ rows) = ground (arith, find_gone v rows)

abbrev pub creator_of : Option Workspace → Uuid
creator_of none = 0
creator_of (some w) = w.created_by

pub find_changed :
    (v ws : Uuid) (f : Workspace → Workspace) (rows : List Workspace) {w : Workspace}
    → ((x : Workspace) → (f x).id ≡ x.id)
    → ((x : Workspace) → (f x).created_by ≡ x.created_by)
    → find (is_row ws) (update_where (is_row v) f rows) ≡ some w
    → (x : Workspace) × (find (is_row ws) rows ≡ some x) × (x.created_by ≡ w.created_by)
find_changed v ws f [] ids creators e = absurd (cc)
find_changed v ws f (x ∷ rows) {w = w} ids creators e = elim (Bool-cases (x.id == v)) [
  | inl changed ↦ elim (Bool-cases (x.id == ws)) [
    | inl here ↦
        let e' = rw (changed, ids x, here) at e in
        (x, rw here refl, sym (creators x) ∙ ap (λ (o : Option Workspace). creator_of o) e')
    | inr apart ↦
        let (y, found, same) =
          find_changed v ws f rows ids creators (rw (changed, ids x, apart) at e) in
        (y, rw apart found, same)
  ]
  | inr kept ↦ elim (Bool-cases (x.id == ws)) [
    | inl here ↦
        let e' = rw (kept, here) at e in
        (x, rw here refl, ap (λ (o : Option Workspace). creator_of o) e')
    | inr apart ↦
        let (y, found, same) = find_changed v ws f rows ids creators (rw (kept, apart) at e) in
        (y, rw apart found, same)
  ]
]

pub some_eq {ℓ} : {A : Type ℓ} (a b : A) → some a ≡ some b → a ≡ b
some_eq a b e = cc

pub some-none {ℓ} : {A : Type ℓ} {a : A} → some a ≡ none → ⊥
some-none e = cc

pub ok_eq : {a b : Db} → ok a ≡ ok b → a ≡ b
ok_eq e = cc

pub record IsOwned (owner : Named) (d : Db) : Type 0 where
  pub role : role_named "owner" d ≡ some owner
  pub creators :
      (ws : Uuid) (w : Workspace)
      → workspace_by_id ws d ≡ some w
      → any (owns ws w.created_by owner.id) d.workspace_members ≡ true
  pub once : (ws user : Uuid) → count_where (is_member ws user) d.workspace_members ≤ 1
