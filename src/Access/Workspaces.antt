-- ===== src/Access/Workspaces.antt =====
-- The checks of backend/src/middlewares read the caller's active workspace and no other.
use project_hermes.Base.{
  ◌≤◌, String, ◌≡◌, refl, subst, ◌↔◌, ◌⊎◌, inl, inr, true, false, ◌&&◌, none, some, List, [], ◌∷◌,
  arith, str_eq, str_eq_iff, Uuid, ◌==◌, Bool-cases, select, count_where, any, find,
}
use mathlib.Core.List.{Memᴰ}
use project_hermes.Base.AppError.{ok, guard, literal, permission}
use project_hermes.Access.{
  Claims, WorkspaceMember, Named, Roles, is_member, role_has, check_permission,
  enforce_workspace_developer, user_role, may_develop,
}
use project_hermes.Access.Grants.{guard_iff}

-- The tables with the memberships of one workspace.
abbrev pub only : Uuid → Roles → Roles
only ws t = record t {
  workspace_members = select (λ (m : WorkspaceMember). m.workspace_id == ws) t.workspace_members;
}

has_perm_only :
    (t : Roles) (ws user : Uuid) (name : String) (members : List WorkspaceMember)
    → any
        (λ (m : WorkspaceMember). is_member ws user m && role_has t name m.role_id)
        (select (λ (m : WorkspaceMember). m.workspace_id == ws) members)
      ≡ any (λ (m : WorkspaceMember). is_member ws user m && role_has t name m.role_id) members
has_perm_only t ws user name [] = refl
has_perm_only t ws user name (m ∷ members) = elim (Bool-cases (m.workspace_id == ws)) [
  | inl here ↦ ground (arith, here, has_perm_only t ws user name members)
  | inr elsewhere ↦ rw (elsewhere, has_perm_only t ws user name members) refl
]

user_role_only :
    (roles : List Named) (ws user : Uuid) (members : List WorkspaceMember)
    → user_role roles ws user (select (λ (m : WorkspaceMember). m.workspace_id == ws) members)
      ≡ user_role roles ws user members
user_role_only roles ws user [] = refl
user_role_only roles ws user (m ∷ members) = elim (Bool-cases (m.workspace_id == ws)) [
  | inl here ↦ ground (arith, here, user_role_only roles ws user members)
  | inr elsewhere ↦ rw (elsewhere, user_role_only roles ws user members) refl
]

-- For a caller with an active workspace, both checks answer the same with the memberships of all
-- other workspaces removed.
check_permission-only :
    (t : Roles) (claims : Claims) (ws : Uuid) (name : String)
    → claims.current_workspace_id ≡ some ws
    → (check_permission (only ws t) claims name ≡ check_permission t claims name)
      × (enforce_workspace_developer (only ws t) claims ≡ enforce_workspace_developer t claims)
unfolding check_permission enforce_workspace_developer
check_permission-only t claims ws name selected = rw selected (
  rw (has_perm_only t ws claims.sub name t.workspace_members) refl,
  rw (user_role_only t.roles ws claims.sub t.workspace_members) refl,
)

not_member :
    (roles : List Named) (ws user : Uuid) (members : List WorkspaceMember)
    → count_where (is_member ws user) members ≡ 0
    → user_role roles ws user members ≡ none
not_member roles ws user [] h = refl
not_member roles ws user (m ∷ members) h = elim (Bool-cases (is_member ws user m)) [
  | inl yes_m ↦ absurd (ground arith)
  | inr no_m ↦ rw no_m (not_member roles ws user members (ground arith))
]

member_counted :
    (ws user : Uuid) (members : List WorkspaceMember) {m : WorkspaceMember}
    → Memᴰ m members
    → is_member ws user m ≡ true
    → 1 ≤ count_where (is_member ws user) members
member_counted ws user [] m h = elim m [ ]
member_counted ws user (k ∷ members) (Memᴰ.head e) h =
    let here : is_member ws user k ≡ true = subst (λ v. is_member ws user v ≡ true) e h in
    ground (arith, here)
member_counted ws user (k ∷ members) (Memᴰ.tail m) h =
    ground (arith, member_counted ws user members m h)

user_role_of :
    (roles : List Named) (ws user : Uuid) (members : List WorkspaceMember) {m : WorkspaceMember}
    {r : Named}
    → Memᴰ m members
    → is_member ws user m ≡ true
    → count_where (is_member ws user) members ≤ 1
    → find (λ (r : Named). r.id == m.role_id) roles ≡ some r
    → user_role roles ws user members ≡ some r.name
user_role_of roles ws user [] m h once found = elim m [ ]
user_role_of roles ws user (k ∷ members) {r = r} (Memᴰ.head e) h once found =
    let here : is_member ws user k ≡ true = subst (λ v. is_member ws user v ≡ true) e h in
    let role =
      subst (λ (v : WorkspaceMember). find (λ (r : Named). r.id == v.role_id) roles ≡ some r) e
        found in
    rw (here, role) refl
user_role_of roles ws user (k ∷ members) (Memᴰ.tail m) h once found =
    elim (Bool-cases (is_member ws user k)) [
      | inl yes_k ↦ absurd (ground (arith, member_counted ws user members m h))
      | inr no_k ↦ rw no_k (user_role_of roles ws user members m h (ground arith) found)
    ]

named :
    (role : String)
    → (guard
          (may_develop (some role))
          (permission (literal "Developer privileges for this workspace required."))
        ≡ ok tt)
      ↔ ((role ≡ "owner") ⊎ (role ≡ "admin") ⊎ (role ≡ "developer"))
named role = (
  λ e.
      let may = (guard_iff _ _).0 e in
      elim (Bool-cases (str_eq role "owner")) [
        | inl owner ↦ inl ((str_eq_iff role "owner").0 owner)
        | inr not_owner ↦ elim (Bool-cases (str_eq role "admin")) [
          | inl admin ↦ inr (inl ((str_eq_iff role "admin").0 admin))
          | inr not_admin ↦
              inr (inr ((str_eq_iff role "developer").0 (rw (not_owner, not_admin) at may)))
        ]
      ],
  λ names. (guard_iff _ _).1 (elim names [
    | inl owner ↦ rw owner refl
    | inr (inl admin) ↦ rw admin refl
    | inr (inr developer) ↦ rw developer refl
  ]),
)

-- A caller who is not a super admin, and has one membership of the active workspace, passes exactly
-- if its role is owner, admin or developer.
pub enforce_workspace_developer-ok :
    (t : Roles) (claims : Claims) (ws : Uuid) {m : WorkspaceMember} {r : Named}
    → claims.current_workspace_id ≡ some ws
    → claims.is_super_admin ≡ false
    → Memᴰ m t.workspace_members
    → is_member ws claims.sub m ≡ true
    → count_where (is_member ws claims.sub) t.workspace_members ≤ 1
    → find (λ (r : Named). r.id == m.role_id) t.roles ≡ some r
    → (enforce_workspace_developer t claims ≡ ok tt)
      ↔ ((r.name ≡ "owner") ⊎ (r.name ≡ "admin") ⊎ (r.name ≡ "developer"))
unfolding enforce_workspace_developer
enforce_workspace_developer-ok t claims ws {m = m} {r = r} selected plain member mine once found =
    rw
      (
        selected,
        plain,
        user_role_of t.roles ws claims.sub t.workspace_members member mine once found,
      )
      (named r.name)
