-- ===== src/Workspaces/Added.antt =====
-- `create_workspace` and `add_workspace_member` of backend/src/controllers/workspace_controller.rs keep
-- what holds of owners.
use project_hermes.Base.{
  ◌≤◌, String, ◌≡◌, ap, subst, inl, inr, false, ◌&&◌, Option, none, some, List, ◌∷◌, arith, str_eq,
  Uuid, ◌==◌, Bool-cases, Option-cases, count_where, any, find,
}
use project_hermes.Base.AppError.{AppError, Result, ok}
use project_hermes.Base.Results.{bind_ok, unit_bind}
use project_hermes.Access.{Claims, WorkspaceMember, Named, is_member}
use project_hermes.Accounts.{User, Workspace, Db}
use project_hermes.Workspaces.{
  insert_member, select_if_none, role_named, slug_of, new_workspace, create_workspace,
  add_workspace_member,
}
use project_hermes.Workspaces.Rows.{absent_count, same_pair, creator_of, ok_eq, IsOwned}

module _ (to_lowercase trim : String → String) (refusal : AppError) where
  pub inserted :
      (d d' : Db) (ws user role : Uuid)
      → insert_member refusal ws user role d ≡ ok d'
      → (any (is_member ws user) d.workspace_members ≡ false)
        × (record d {
          workspace_members =
              record { workspace_id = ws; user_id = user; role_id = role } ∷ d.workspace_members;
        }
            ≡ d')
  inserted d d' ws user role e = elim (Bool-cases (any (is_member ws user) d.workspace_members)) [
    | inl there ↦ absurd (let e' = rw there at e in cc)
    | inr free ↦ let e' = rw free at e in (free, cc)
  ]

  pub once_inserted :
      (members : List WorkspaceMember) (ws user role v other : Uuid)
      → any (is_member ws user) members ≡ false
      → count_where (is_member v other) members ≤ 1
      → count_where
          (is_member v other)
          (record { workspace_id = ws; user_id = user; role_id = role } ∷ members)
        ≤ 1
  once_inserted members ws user role v other free h = elim (Bool-cases (ws == v && user == other)) [
    | inl same ↦
        let (same_ws, same_user) = same_pair ws v user other same in
        let zero =
          subst (λ u. count_where (is_member u other) members ≡ 0) same_ws
            (subst (λ u. count_where (is_member ws u) members ≡ 0) same_user
              (absent_count ws user members free)) in
        rw same (omega (arith, zero))
    | inr apart ↦ rw apart h
  ]

  pub inserted-IsOwned :
      (owner : Named) (d d' : Db) (ws user role : Uuid)
      → insert_member refusal ws user role d ≡ ok d'
      → IsOwned owner d
      → IsOwned owner d'
  inserted-IsOwned owner d d' ws user role e v =
      let (free, same) = inserted d d' ws user role e in
      subst (IsOwned owner) same (record {
        role = v.role;
        creators = λ u w found. ground (arith, v.creators u w found);
        once =
            λ u other. once_inserted d.workspace_members ws user role u other free (v.once u other);
      })

  -- The new workspace is found by its id, and its creator is in front of the members.
  pub created-IsOwned :
      (owner : Named) (d d' : Db) (id user : Uuid) (name : String)
      → insert_member refusal id user owner.id (record d {
        workspaces = new_workspace to_lowercase trim refusal id user name ∷ d.workspaces;
      })
        ≡ ok d'
      → IsOwned owner d
      → IsOwned owner d'
  created-IsOwned owner d d' id user name e v =
      let (free, same) =
        inserted
          (record d {
            workspaces = new_workspace to_lowercase trim refusal id user name ∷ d.workspaces;
          })
          d' id user owner.id e in
      subst (IsOwned owner) same (record {
        role = v.role;
        creators = λ u w found. elim (Bool-cases (id == u)) [
          | inl new ↦
              let found' = rw new at found in
              let creator = ap creator_of found' in ground (arith, creator, new)
          | inr old ↦ ground (arith, v.creators u w (rw old at found))
        ];
        once = λ u other.
            once_inserted d.workspace_members id user owner.id u other free (v.once u other);
      })

  pub selected-IsOwned :
      (owner : Named) (d : Db) (ws : Option Uuid) (id user : Uuid)
      → IsOwned owner d
      → IsOwned owner (select_if_none ws id user d)
  selected-IsOwned owner d none id user v = record {
    role = v.role;
    creators = v.creators;
    once = v.once;
  }
  selected-IsOwned owner d (some ws) id user v = v

  pub create-IsOwned :
      (owner : Named) (claims : Claims) (id : Uuid) (name : String) (namespace : Result (Unit {0}))
      (d d' : Db)
      → create_workspace to_lowercase trim refusal claims id name namespace d ≡ ok d'
      → IsOwned owner d
      → IsOwned owner d'
  unfolding create_workspace
  create-IsOwned owner claims id name namespace d d' e v = elim (Bool-cases claims.is_super_admin) [
    | inr plain ↦ absurd (let h = rw plain at e in cc)
    | inl super ↦
        elim (Bool-cases (
          any (λ (w : Workspace). str_eq w.slug (slug_of to_lowercase trim refusal name))
            d.workspaces)) [
              | inl taken ↦ absurd (let h = rw (super, taken) at e in cc)
              | inr free ↦
                  let h = rw (super, free, v.role) at e in
                  let (with_owner, made, h1) = bind_ok _ _ h in
                  let (answered, h2) = unit_bind _ _ h1 in
                  subst (IsOwned owner) (ok_eq h2) (
                    selected-IsOwned owner with_owner claims.current_workspace_id id claims.sub
                      (created-IsOwned owner d with_owner id claims.sub name made v))
            ]
  ]

  pub add-IsOwned :
      (owner : Named) (claims : Claims) (email role_name : String) (d d' : Db)
      → add_workspace_member to_lowercase trim refusal claims email role_name d ≡ ok d'
      → IsOwned owner d
      → IsOwned owner d'
  unfolding add_workspace_member
  add-IsOwned owner claims email role_name d d' e v =
      elim (Option-cases (claims.current_workspace_id)) [
        | inl unset ↦ absurd (let h = rw unset at e in cc)
        | inr (ws, selected) ↦
            elim (Option-cases
              (find (λ (u : User). str_eq u.email (to_lowercase (trim email))) d.users)) [
                | inl nobody ↦ absurd (let h = rw (selected, nobody) at e in cc)
                | inr (user, is_user) ↦
                    elim (Bool-cases (any (is_member ws user.id) d.workspace_members)) [
                      | inl there ↦ absurd (let h = rw (selected, is_user, there) at e in cc)
                      | inr stranger ↦
                          elim (Option-cases (role_named (to_lowercase (trim role_name)) d)) [
                            | inl unknown ↦
                                absurd
                                  (let h = rw (selected, is_user, stranger, unknown) at e in cc)
                            | inr (role, known) ↦
                                let h = rw (selected, is_user, stranger, known) at e in
                                inserted-IsOwned owner d d' ws user.id role.id (rw stranger h) v
                          ]
                    ]
              ]
      ]
