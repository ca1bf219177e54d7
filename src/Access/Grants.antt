-- ===== src/Access/Grants.antt =====
-- Whom the permissions of backend/src/middlewares/permission_middleware.rs admit.
use project_hermes.Base.{
  String, ◌≡◌, refl, ap, ◌↔◌, ◌⊎◌, inl, inr, Bool, true, false, ◌&&◌, some, List, [], ◌∷◌, arith,
  str_eq, str_eq_iff, Uuid, ◌==◌, ==_iff, Bool-cases, any,
}
use mathlib.Core.List.{Memᴰ}
use project_hermes.Base.AppError.{AppError, ok, guard}
use project_hermes.Access.{
  Claims, WorkspaceMember, RolePermission, Named, Roles, is_member, role_has, has_perm,
  check_permission,
}

module _ {A : Type 0} (p : A → Bool) where
  any-Memᴰ : (xs : List A) → any p xs ≡ true → (x : A) × Memᴰ x xs × (p x ≡ true)
  any-Memᴰ [] h = absurd (cc)
  any-Memᴰ (y ∷ ys) h = elim (Bool-cases (p y)) [
    | inl yes_y ↦ (y, Memᴰ.head refl, yes_y)
    | inr no_y ↦ let (x, m, h') = any-Memᴰ ys (ground arith) in (x, Memᴰ.tail m, h')
  ]

  Memᴰ-any : (xs : List A) {x : A} → Memᴰ x xs → p x ≡ true → any p xs ≡ true
  Memᴰ-any [] m h = elim m [ ]
  Memᴰ-any (y ∷ ys) (Memᴰ.head e) h = ground (arith, ap p e)
  Memᴰ-any (y ∷ ys) (Memᴰ.tail m) h = ground (arith, Memᴰ-any ys m h)

-- Rows that grant the permission: a membership of the user in the workspace, a row that gives its
-- role a permission, and the row of that permission, with the name.
pub record IsGranted (t : Roles) (ws user : Uuid) (name : String) : Type 0 where
  pub member : WorkspaceMember
  pub grant : RolePermission
  pub named : Named
  pub has_member : Memᴰ member t.workspace_members
  pub has_grant : Memᴰ grant t.role_permissions
  pub has_named : Memᴰ named t.permissions
  pub same_workspace : member.workspace_id ≡ ws
  pub same_user : member.user_id ≡ user
  pub same_role : grant.role_id ≡ member.role_id
  pub same_permission : named.id ≡ grant.permission_id
  pub same_name : named.name ≡ name

and_true : (a b : Bool) → (a && b) ≡ true → (a ≡ true) × (b ≡ true)
and_true true b h = (refl, h)
and_true false b h = absurd (cc)

true_and : (a b : Bool) → a ≡ true → b ≡ true → (a && b) ≡ true
true_and a b ha hb = rw (ha, hb) refl

module _ (t : Roles) (ws user : Uuid) (name : String) where
  abbrev names_it : Uuid → Named → Bool
  names_it permission_id p = p.id == permission_id && str_eq p.name name

  abbrev grants_it : Uuid → RolePermission → Bool
  grants_it role rp = rp.role_id == role && any (names_it rp.permission_id) t.permissions

  abbrev holds_it : WorkspaceMember → Bool
  holds_it m = is_member ws user m && role_has t name m.role_id

  has_perm-IsGranted : has_perm t ws user name ≡ true → IsGranted t ws user name
  has_perm-IsGranted h =
      let (m, has_member, hm) = any-Memᴰ holds_it t.workspace_members h in
      let (is_user, has_role) = and_true (is_member ws user m) (role_has t name m.role_id) hm in
      let (same_ws, same_user) = and_true (m.workspace_id == ws) (m.user_id == user) is_user in
      let (rp, has_grant, hg) = any-Memᴰ (grants_it m.role_id) t.role_permissions has_role in
      let (same_role, has_permission) =
        and_true (rp.role_id == m.role_id) (any (names_it rp.permission_id) t.permissions) hg in
      let (p, has_named, hp) = any-Memᴰ (names_it rp.permission_id) t.permissions has_permission in
      let (same_id, same_name) = and_true (p.id == rp.permission_id) (str_eq p.name name) hp in
      record {
        member = m;
        grant = rp;
        named = p;
        has_member = has_member;
        has_grant = has_grant;
        has_named = has_named;
        same_workspace = (==_iff m.workspace_id ws).0 same_ws;
        same_user = (==_iff m.user_id user).0 same_user;
        same_role = (==_iff rp.role_id m.role_id).0 same_role;
        same_permission = (==_iff p.id rp.permission_id).0 same_id;
        same_name = (str_eq_iff p.name name).0 same_name;
      }

  IsGranted-has_perm : IsGranted t ws user name → has_perm t ws user name ≡ true
  IsGranted-has_perm g =
      let hp = Memᴰ-any (names_it g.grant.permission_id) t.permissions g.has_named (
        true_and _ _ ((==_iff g.named.id g.grant.permission_id).1 g.same_permission)
          ((str_eq_iff g.named.name name).1 g.same_name)) in
      let hg =
        Memᴰ-any (grants_it g.member.role_id) t.role_permissions g.has_grant
          (true_and _ _ ((==_iff g.grant.role_id g.member.role_id).1 g.same_role) hp) in
      Memᴰ-any holds_it t.workspace_members g.has_member (
        true_and _ _
          (true_and _ _ ((==_iff g.member.workspace_id ws).1 g.same_workspace)
            ((==_iff g.member.user_id user).1 g.same_user))
          hg)

pub guard_iff : (b : Bool) (error : AppError) → (guard b error ≡ ok tt) ↔ (b ≡ true)
guard_iff true error = (λ _. refl, λ _. refl)
guard_iff false error = (λ e. absurd (cc), λ e. absurd (cc))

-- For a caller with an active workspace, a permission is granted exactly to a super admin, or where
-- there are rows that make the caller a member of that workspace with a role that has a permission
-- of that name.
pub check_permission-IsGranted :
    (t : Roles) (claims : Claims) (ws : Uuid) (name : String)
    → claims.current_workspace_id ≡ some ws
    → (check_permission t claims name ≡ ok tt)
      ↔ ((claims.is_super_admin ≡ true) ⊎ IsGranted t ws claims.sub name)
unfolding check_permission
check_permission-IsGranted t claims ws name selected =
    rw selected (elim (Bool-cases claims.is_super_admin) [
      | inl super ↦ rw super (λ _. inl refl, λ _. refl)
      | inr plain ↦ rw plain (
        λ e. inr (has_perm-IsGranted t ws claims.sub name ((guard_iff _ _).0 e)),
        λ g. elim g [
          | inl super ↦ absurd (cc)
          | inr granted ↦ (guard_iff _ _).1 (IsGranted-has_perm t ws claims.sub name granted)
        ],
      )
    ])
