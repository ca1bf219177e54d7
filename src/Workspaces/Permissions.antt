-- ===== src/Workspaces/Permissions.antt =====
-- Members of backend/src/controllers/workspace_controller.rs and the middlewares: who may do what after
-- a change of the members.
use project_hermes.Base.{
  String, ◌≡◌, refl, subst, ◌≢◌, inl, inr, true, false, ◌&&◌, some, List, [], ◌∷◌, arith, str_eq,
  str_eq_iff, Uuid, ◌==◌, Bool-cases, Option-cases, any, find, update_where, delete_where,
}
use project_hermes.Base.AppError.{AppError, ok, err, permission}
use project_hermes.Access.{
  Claims, WorkspaceMember, Named, Roles, is_member, role_has, user_role, permission_message,
  check_permission, enforce_workspace_developer,
}
use project_hermes.Accounts.{Workspace, Db}
use project_hermes.Workspaces.{
  with_role, role_named, workspace_by_id, update_workspace_member_role, remove_workspace_member,
  roles_of, member_route,
}

-- Members without a row of the user grant the user nothing.
no_row :
    (t : Roles) (ws user : Uuid) (name : String) (members : List WorkspaceMember)
    → any
        (λ (m : WorkspaceMember). is_member ws user m && role_has t name m.role_id)
        (delete_where (is_member ws user) members)
      ≡ false
no_row t ws user name [] = refl
no_row t ws user name (m ∷ members) = elim (Bool-cases (is_member ws user m)) [
  | inl mine ↦ rw mine (no_row t ws user name members)
  | inr other ↦ rw other (rw other (no_row t ws user name members))
]

ok_db : {a b : Db} → ok a ≡ ok b → a ≡ b
ok_db e = cc

refused_to :
    (t : Roles) (removed : Claims) (ws user : Uuid) (name : String) (members : List WorkspaceMember)
    → removed.sub ≡ user
    → removed.current_workspace_id ≡ some ws
    → removed.is_super_admin ≡ false
    → check_permission
        (record t { workspace_members = delete_where (is_member ws user) members })
        removed
        name
      ≡ err (permission (permission_message name))
unfolding check_permission
refused_to t removed ws user name members same there plain =
    rw (there, plain, same)
      (rw (no_row (record t { workspace_members = members }) ws user name members) refl)

-- After the removal of a member, no permission in that workspace is granted to the user, whatever
-- the claims of a token issued before say, unless they are those of a super admin.
pub remove_workspace_member-check_permission :
    (claims : Claims) (user ws : Uuid) (d : Db) {d' : Db}
    → remove_workspace_member claims user d ≡ ok d'
    → claims.current_workspace_id ≡ some ws
    → (removed : Claims) (name : String) → removed.sub ≡ user
    → removed.current_workspace_id ≡ some ws
    → removed.is_super_admin ≡ false
    → check_permission (roles_of d') removed name ≡ err (permission (permission_message name))
unfolding remove_workspace_member check_permission
remove_workspace_member-check_permission claims user ws d {d' = d'} e selected removed name same
      there plain =
    elim (Option-cases (workspace_by_id ws d)) [
      | inl missing ↦ absurd (let h = rw (selected, missing) at e in cc)
      | inr (w, found) ↦ elim (Bool-cases (user == w.created_by)) [
        | inl creator ↦ absurd (let h = rw (selected, found, creator) at e in cc)
        | inr free ↦ elim (Bool-cases (user == claims.sub)) [
          | inl self ↦ absurd (let h = rw (selected, found, free, self) at e in cc)
          | inr apart ↦ elim (Bool-cases (any (is_member ws user) d.workspace_members)) [
            | inr stranger ↦ absurd (let h = rw (selected, found, free, apart, stranger) at e in cc)
            | inl member ↦
                let h = rw (selected, found, free, apart, member) at e in
                subst
                  (λ (x : Db).
                    check_permission (roles_of x) removed name
                    ≡ err (permission (permission_message name)))
                  (ok_db h)
                  (refused_to (roles_of d) removed ws user name d.workspace_members same there
                    plain)
          ]
        ]
      ]
    ]

some_named : {a b : Named} → some a ≡ some b → a ≡ b
some_named e = cc

promoted :
    (roles : List Named) (ws user role : Uuid) (name : String) (r : Named)
    (members : List WorkspaceMember)
    → find (λ (n : Named). n.id == role) roles ≡ some r
    → any (is_member ws user) members ≡ true
    → user_role roles ws user (update_where (is_member ws user) (with_role role) members)
      ≡ some r.name
promoted roles ws user role name r [] found h = absurd (cc)
promoted roles ws user role name r (m ∷ members) found h = elim (Bool-cases (is_member ws user m)) [
  | inl mine ↦ rw mine (rw (mine, found) refl)
  | inr other ↦
      rw other (rw other (promoted roles ws user role name r members found (rw other at h)))
]

role_named-name :
    (name : String) (roles : List Named) {r : Named}
    → find (λ (n : Named). str_eq n.name name) roles ≡ some r
    → r.name ≡ name
role_named-name name [] e = absurd (cc)
role_named-name name (n ∷ roles) {r = r} e = elim (Bool-cases (str_eq n.name name)) [
  | inl same ↦
      let e' = rw same at e in
      subst (λ (x : Named). x.name ≡ name) (some_named e') ((str_eq_iff n.name name).0 same)
  | inr other ↦ let e' = rw other at e in role_named-name name roles e'
]

-- The tables after a member has taken the role of an owner.
abbrev pub as_owner : Uuid → Uuid → Named → Db → Db
as_owner ws user owner d = record d {
  workspace_members = update_where (is_member ws user) (with_role owner.id) d.workspace_members;
}

-- A member of the active workspace who may only read projects, and is not its creator, takes the
-- role of an owner by one request of the route, and then passes as a developer.
pub update_workspace_member_role-enforce_workspace_developer :
    (to_lowercase trim : String → String) (refusal : AppError) (claims : Claims) (ws : Uuid)
    (w : Workspace) (owner : Named) (d : Db)
    → to_lowercase (trim "owner") ≡ "owner"
    → claims.current_workspace_id ≡ some ws
    → workspace_by_id ws d ≡ some w
    → claims.sub ≢ w.created_by
    → role_named "owner" d ≡ some owner
    → find (λ (n : Named). n.id == owner.id) d.roles ≡ some owner
    → any (is_member ws claims.sub) d.workspace_members ≡ true
    → check_permission (roles_of d) claims "project:read" ≡ ok tt
    → (member_route claims d
          (update_workspace_member_role to_lowercase trim refusal claims claims.sub "owner" d)
        ≡ ok (as_owner ws claims.sub owner d))
      × (user_role d.roles ws claims.sub (as_owner ws claims.sub owner d).workspace_members
          ≡ some "owner")
      × (enforce_workspace_developer (roles_of (as_owner ws claims.sub owner d)) claims ≡ ok tt)
unfolding update_workspace_member_role enforce_workspace_developer
update_workspace_member_role-enforce_workspace_developer to_lowercase trim refusal claims ws w owner
      d lowered selected found other named by_id member reads =
    let apart : (claims.sub == w.created_by) ≡ false = ground (arith, other) in
    let role =
      promoted d.roles ws claims.sub owner.id "owner" owner d.workspace_members by_id member in
    let is_owner = rw (role_named-name "owner" d.roles named) at role in
    (
      rw (reads, selected, found, apart, member, lowered, named) refl,
      is_owner,
      elim (Bool-cases claims.is_super_admin) [
        | inl super ↦ rw (selected, super) refl
        | inr plain ↦ rw (selected, plain, is_owner) refl
      ],
    )
