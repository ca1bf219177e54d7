-- ===== src/Accounts/Sessions.antt =====
-- What a login of backend/src/controllers/auth_controller.rs that succeeds has seen, and what its token
-- says.
use project_hermes.Base.{
  String, ◌≡◌, refl, sym, ◌∙◌, subst, ◌⊎◌, inl, inr, Bool, true, false, Option, none, some, List,
  [], ◌∷◌, Uuid, Time, ◌==◌, ==_iff, Bool-cases, find,
}
use mathlib.Core.List.{Memᴰ}
use project_hermes.Base.AppError.{Result, ok, err}
use project_hermes.Locks.{Counters}
use project_hermes.Access.{Claims, WorkspaceMember, is_suspended}
use project_hermes.Accounts.{
  User, Db, Origin, if_audited, audit_entry, Crates, TokenBundle, of_member, default_workspace,
  claims_of, issued, bundle_of, issue, verified, authenticate, has_identity, throttle, login,
  store_workspace,
}

-- A workspace that the user had selected, or that of a membership.
abbrev pub IsWorkspaceOf : List WorkspaceMember → User → Option Uuid → Type 0
IsWorkspaceOf members u ws =
    (ws ≡ u.current_workspace_id)
    ⊎ ((m : WorkspaceMember) × Memᴰ m members × (m.user_id ≡ u.id) × (ws ≡ some m.workspace_id))

module _ (lib : Crates) where
  pub record IsLogin (identity password : String) (from : Origin) (before after : Db)
      (bundle : TokenBundle) : Type 0 where
    pub user : User
    pub claims : Claims
    pub found : find (has_identity lib identity) before.users ≡ some user
    pub not_suspended : is_suspended user.status ≡ false
    pub password_fits : lib.verify_password password user.password_hash ≡ ok true
    pub signed : lib.encode claims ≡ inr bundle.access_token
    pub same_user : claims.sub ≡ user.id
    pub same_status : claims.status ≡ user.status
    pub same_rank : claims.is_super_admin ≡ user.is_super_admin
    pub workspace : IsWorkspaceOf before.workspace_members user claims.current_workspace_id
    pub logged :
        after.auth_audit_logs
        ≡ if_audited from.audits
            (audit_entry from (some user.id) user.email "LOGIN_SUCCESS")
            before.auth_audit_logs

  bundle_of-ok :
      (now : Time) (random : String) (u : User) (d : Db) (signed : String ⊎ String)
      {bundle : TokenBundle}
      → (issued lib u d (bundle_of lib now random signed)).1 ≡ ok bundle
      → (signed ≡ inr bundle.access_token)
        × ((issued lib u d (bundle_of lib now random signed)).0.auth_audit_logs ≡ d.auth_audit_logs)
  bundle_of-ok now random u d (inl e) h = absurd (cc)
  bundle_of-ok now random u d (inr token) h = (cc, refl)

  pub issue-ok :
      (now : Time) (random : String) (u : User) (d : Db) {bundle : TokenBundle}
      → (issue lib now random u d).1 ≡ ok bundle
      → (lib.encode (claims_of lib now u) ≡ inr bundle.access_token)
        × ((issue lib now random u d).0.auth_audit_logs ≡ d.auth_audit_logs)
  unfolding issue
  issue-ok now random u d e = bundle_of-ok now random u d (lib.encode (claims_of lib now u)) e

  member_found :
      (u : User) (members : List WorkspaceMember) {m : WorkspaceMember}
      → find (λ (m : WorkspaceMember). m.user_id == u.id) members ≡ some m
      → Memᴰ m members × (m.user_id ≡ u.id)
  member_found u [] e = absurd (cc)
  member_found u (k ∷ members) {m = m} e = elim (Bool-cases (k.user_id == u.id)) [
    | inl same ↦
        let e' : some k ≡ some m = rw same at e in
        let here : k ≡ m = cc in
        (
          Memᴰ.head (sym here),
          subst (λ (v : WorkspaceMember). v.user_id ≡ u.id) here ((==_iff k.user_id u.id).0 same),
        )
    | inr apart ↦ let rest = member_found u members (rw apart at e) in (Memᴰ.tail rest.0, rest.1)
  ]

  -- The user who gets the session is the one that was found, but for the workspace.
  record IsSame (members : List WorkspaceMember) (u v : User) : Type 0 where
    id : v.id ≡ u.id
    email : v.email ≡ u.email
    status : v.status ≡ u.status
    is_super_admin : v.is_super_admin ≡ u.is_super_admin
    workspace : IsWorkspaceOf members u v.current_workspace_id

  unchanged : (members : List WorkspaceMember) (u : User) → IsSame members u u
  unchanged members u = record {
    id = refl;
    email = refl;
    status = refl;
    is_super_admin = refl;
    workspace = inl refl;
  }

  of_member-IsSame :
      (members : List WorkspaceMember) (u : User) (o : Option WorkspaceMember)
      → find (λ (m : WorkspaceMember). m.user_id == u.id) members ≡ o
      → IsSame members u (of_member u o).0
  of_member-IsSame members u none e = unchanged members u
  of_member-IsSame members u (some m) e =
      let (member, mine) = member_found u members e in
      record {
        id = refl;
        email = refl;
        status = refl;
        is_super_admin = refl;
        workspace = inr (m, member, mine, refl);
      }

  default_workspace-IsSame :
      (members : List WorkspaceMember) (u : User) (ws : Option Uuid)
      → IsSame members u (default_workspace members u ws).0
  default_workspace-IsSame members u (some ws) = unchanged members u
  default_workspace-IsSame members u none = of_member-IsSame members u _ refl

  store_workspace-logs :
      (id : Uuid) (ws : Option Uuid) (d : Db)
      → (store_workspace id ws d).auth_audit_logs ≡ d.auth_audit_logs
  store_workspace-logs id none d = refl
  store_workspace-logs id (some ws) d = refl

  verified-ok :
      (now : Time) (from : Origin) (identity random : String) (u : User) (d : Db) (r : Result Bool)
      {bundle : TokenBundle}
      → (verified lib now from identity random u d r).1 ≡ ok bundle
      → (r ≡ ok true)
        × (lib.encode
              (claims_of lib now (default_workspace d.workspace_members u u.current_workspace_id).0)
            ≡ inr bundle.access_token)
        × ((verified lib now from identity random u d r).0.auth_audit_logs
            ≡ if_audited from.audits
                (audit_entry from (some u.id) u.email "LOGIN_SUCCESS")
                d.auth_audit_logs)
  verified-ok now from identity random u d (err e) h = absurd (cc)
  verified-ok now from identity random u d (ok false) h = absurd (cc)
  verified-ok now from identity random u d (ok true) h =
      let chosen = default_workspace d.workspace_members u u.current_workspace_id in
      let same = default_workspace-IsSame d.workspace_members u u.current_workspace_id in
      let (signed, logs) = issue-ok now random chosen.0 _ h in
      (
        refl,
        signed,
        logs ∙ rw (store_workspace-logs chosen.0.id chosen.1 d, same.id, same.email) refl,
      )

  authenticate-ok :
      (now : Time) (from : Origin) (identity password random : String) (d : Db) (c : Counters)
      (o : Option User) {bundle : TokenBundle}
      → find (has_identity lib identity) d.users ≡ o
      → (authenticate lib now from identity password random (record d { counters = c }) o).1
        ≡ ok bundle
      → IsLogin identity password from d
          (authenticate lib now from identity password random (record d { counters = c }) o).0
          bundle
  authenticate-ok now from identity password random d c none found h = absurd (cc)
  authenticate-ok now from identity password random d c (some u) {bundle = bundle} found h =
      elim (Bool-cases (is_suspended u.status)) [
        | inl out ↦ absurd (let h' = rw out at h in cc)
        | inr fine ↦ rw fine (
            let (fits, signed, logs) =
              verified-ok now from identity random u (record d { counters = c })
                (lib.verify_password password u.password_hash) (rw fine at h) in
            let same = default_workspace-IsSame d.workspace_members u u.current_workspace_id in
            record {
              user = u;
              claims =
                  claims_of lib now
                    (default_workspace d.workspace_members u u.current_workspace_id).0;
              found = found;
              not_suspended = fine;
              password_fits = fits;
              signed = signed;
              same_user = same.id;
              same_status = same.status;
              same_rank = same.is_super_admin;
              workspace = same.workspace;
              logged = logs;
            })
      ]

  -- A login that succeeds passed the throttle of its address; its name or address is that of an
  -- account that is not suspended and whose password it gave; its token is signed over the claims
  -- of that account, with its selected workspace or one of its memberships; and one entry is added
  -- to the audit log if its INSERT is answered, and none otherwise.
  pub login-ok :
      (reachable : Bool) (now : Time) (from : Origin) (identity password random : String) (d : Db)
      {bundle : TokenBundle}
      → (login lib reachable now from identity password random d).1 ≡ ok bundle
      → ((throttle lib reachable now from d).1 ≡ true)
        × IsLogin identity password from d
            (login lib reachable now from identity password random d).0
            bundle
  unfolding login
  login-ok reachable now from identity password random d h =
      elim (Bool-cases (throttle lib reachable now from d).1) [
        | inl allowed ↦ rw allowed (
          refl,
          authenticate-ok now from identity password random d (throttle lib reachable now from d).0
              (find (has_identity lib identity) d.users) refl (rw allowed at h),
        )
        | inr many ↦ absurd (let h' = rw many at h in cc)
      ]
