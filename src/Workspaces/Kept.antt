-- ===== src/Workspaces/Kept.antt =====
-- The other handlers of backend/src/controllers/workspace_controller.rs keep what holds of owners.
use project_hermes.Base.{
  String, ◌≡◌, refl, sym, ◌∙◌, subst, inl, inr, true, false, ◌&&◌, not, Option, none, some, arith,
  Uuid, ◌==◌, ==_iff, Bool-cases, Option-cases, any, find, delete_where,
}
use project_hermes.Base.Int.{ℤ}
use project_hermes.Base.AppError.{AppError, Result, ok}
use project_hermes.Base.Results.{guard_bind, unit_bind}
use project_hermes.Access.{Claims, WorkspaceMember, Named, is_member}
use project_hermes.Accounts.{Workspace, Db}
use project_hermes.Workspaces.{
  role_named, workspace_by_id, owns, update_workspace_member_role, remove_workspace_member,
  remove_rows, delete_workspace, update_workspace_settings,
}
use project_hermes.Workspaces.Rows.{
  is_row, update-Holds, delete-Holds, purge-Holds, count_updated, count_deleted, find_kept,
  find_gone, find_changed, some_eq, some-none, ok_eq, IsOwned,
}

module _ (to_lowercase trim : String → String) (refusal : AppError) where
  -- The guard on the creator keeps the row of the creator as it is.
  pub guarded :
      (d : Db) (ws user u : Uuid) (w x : Workspace)
      → workspace_by_id ws d ≡ some w
      → workspace_by_id u d ≡ some x
      → not (user == w.created_by) ≡ true
      → (ws == u && user == x.created_by) ≡ false
  guarded d ws user u w x found other free = elim (Bool-cases (ws == u)) [
    | inl same ↦
        let one = some_eq w x (
          sym found
          ∙ subst (λ i. workspace_by_id i d ≡ some x) (sym ((==_iff ws u).0 same)) other) in
        rw same
          (subst (λ (y : Workspace). (user == y.created_by) ≡ false) one (ground (arith, free)))
    | inr apart ↦ rw apart refl
  ]

  pub change_role-IsOwned :
      (owner : Named) (claims : Claims) (user : Uuid) (role_name : String) (d d' : Db)
      → update_workspace_member_role to_lowercase trim refusal claims user role_name d ≡ ok d'
      → IsOwned owner d
      → IsOwned owner d'
  unfolding update_workspace_member_role
  change_role-IsOwned owner claims user role_name d d' e v =
      elim (Option-cases (claims.current_workspace_id)) [
        | inl unset ↦ absurd (let h = rw unset at e in cc)
        | inr (ws, selected) ↦ elim (Option-cases (workspace_by_id ws d)) [
          | inl missing ↦ absurd (let h = rw (selected, missing) at e in cc)
          | inr (w, found) ↦ elim (Bool-cases (user == w.created_by)) [
            | inl creator ↦ absurd (let h = rw (selected, found, creator) at e in cc)
            | inr free ↦ elim (Bool-cases (any (is_member ws user) d.workspace_members)) [
              | inr stranger ↦ absurd (let h = rw (selected, found, free, stranger) at e in cc)
              | inl member ↦ elim (Option-cases (role_named (to_lowercase (trim role_name)) d)) [
                | inl unknown ↦
                    absurd (let h = rw (selected, found, free, member, unknown) at e in cc)
                | inr (role, known) ↦
                    let h = rw (selected, found, free, member, known) at e in
                    subst (IsOwned owner) (ok_eq h) (record {
                      role = v.role;
                      creators = λ u x other.
                          update-Holds u x.created_by owner.id ws user role.id d.workspace_members
                            (guarded d ws user u w x found other (rw free refl))
                            (v.creators u x other);
                      once = λ u other.
                          rw (count_updated u other 0 ws user role.id d.workspace_members)
                            (v.once u other);
                    })
              ]
            ]
          ]
        ]
      ]

  pub remove-IsOwned :
      (owner : Named) (claims : Claims) (user : Uuid) (d d' : Db)
      → remove_workspace_member claims user d ≡ ok d'
      → IsOwned owner d
      → IsOwned owner d'
  unfolding remove_workspace_member
  remove-IsOwned owner claims user d d' e v = elim (Option-cases (claims.current_workspace_id)) [
    | inl unset ↦ absurd (let h = rw unset at e in cc)
    | inr (ws, selected) ↦ elim (Option-cases (workspace_by_id ws d)) [
      | inl missing ↦ absurd (let h = rw (selected, missing) at e in cc)
      | inr (w, found) ↦ elim (Bool-cases (user == w.created_by)) [
        | inl creator ↦ absurd (let h = rw (selected, found, creator) at e in cc)
        | inr free ↦ elim (Bool-cases (user == claims.sub)) [
          | inl self ↦ absurd (let h = rw (selected, found, free, self) at e in cc)
          | inr apart ↦ elim (Bool-cases (any (is_member ws user) d.workspace_members)) [
            | inr stranger ↦ absurd (let h = rw (selected, found, free, apart, stranger) at e in cc)
            | inl member ↦
                let h = rw (selected, found, free, apart, member) at e in
                subst (IsOwned owner) (ok_eq h) (record {
                  role = v.role;
                  creators = λ u x other.
                      delete-Holds u x.created_by owner.id ws user d.workspace_members
                        (guarded d ws user u w x found other (rw free refl)) (v.creators u x other);
                  once = λ u other.
                      let less = count_deleted u other 0 (is_member ws user) d.workspace_members in
                      let before = v.once u other in omega arith;
                })
          ]
        ]
      ]
    ]
  ]

  pub rows_removed :
      (owner : Named) (ws : Uuid) (d : Db) → IsOwned owner d → IsOwned owner (remove_rows ws d)
  unfolding remove_rows
  rows_removed owner ws d v = record {
    role = v.role;
    creators = λ u x other. elim (Bool-cases (ws == u)) [
      | inl same ↦ absurd (
          some-none (
            sym other
            ∙ subst (λ i. find (is_row i) (delete_where (is_row ws) d.workspaces) ≡ none)
                ((==_iff ws u).0 same) (find_gone ws d.workspaces)))
      | inr apart ↦
          purge-Holds u x.created_by owner.id ws d.workspace_members apart
            (v.creators u x (sym (find_kept ws u d.workspaces apart) ∙ other))
    ];
    once = λ u other.
        let less =
          count_deleted u other 0 (λ (m : WorkspaceMember). m.workspace_id == ws)
            d.workspace_members in
        let before = v.once u other in omega arith;
  }

  pub delete-IsOwned :
      (owner : Named) (claims : Claims) (ws : Uuid) (client : Result (Unit {0})) (d d' : Db)
      → delete_workspace claims ws client d ≡ ok d'
      → IsOwned owner d
      → IsOwned owner d'
  unfolding delete_workspace
  delete-IsOwned owner claims ws client d d' e v = elim (Bool-cases claims.is_super_admin) [
    | inl super ↦
        let h0 = rw super at e in
        let (answered, h) = unit_bind _ _ h0 in
        subst (IsOwned owner) (ok_eq h) (rows_removed owner ws d v)
    | inr plain ↦
        let h0 = rw (plain, v.role) at e in
        let (owning, e1) = guard_bind _ _ _ h0 in
        let (answered, h) = unit_bind _ _ e1 in
        subst (IsOwned owner) (ok_eq h) (rows_removed owner ws d v)
  ]

  pub settings-IsOwned :
      (slug : String → String) (owner : Named) (claims : Claims) (name : Option String)
      (mem storage cpu : Option ℤ) (d d' : Db)
      → update_workspace_settings slug claims name mem storage cpu d ≡ ok d'
      → IsOwned owner d
      → IsOwned owner d'
  unfolding update_workspace_settings
  settings-IsOwned slug owner claims name mem storage cpu d d' e v =
      elim (Option-cases (claims.current_workspace_id)) [
        | inl unset ↦ absurd (let h = rw unset at e in cc)
        | inr (ws, selected) ↦ elim (Option-cases (workspace_by_id ws d)) [
          | inl missing ↦ absurd (let h = rw (selected, missing) at e in cc)
          | inr (w, found) ↦
              let h = rw (selected, found) at e in
              subst (IsOwned owner) (ok_eq h) (record {
                role = v.role;
                creators = λ u x other.
                    let (y, was, same) =
                      find_changed ws u _ d.workspaces (λ z. refl) (λ z. refl) other in
                    subst (λ c. any (owns u c owner.id) d.workspace_members ≡ true) same
                      (v.creators u y was);
                once = v.once;
              })
        ]
      ]
