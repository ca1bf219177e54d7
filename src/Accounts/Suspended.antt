-- ===== src/Accounts/Suspended.antt =====
-- A suspended account of backend/src/controllers/auth_controller.rs gets no token that
-- backend/src/middlewares/auth_middleware.rs admits.
use project_hermes.Base.{
  String, ◌≡◌, refl, sym, ◌∙◌, subst, ◌≢◌, ◌⊎◌, inl, inr, Bool, true, false, ◌||◌, Option, none,
  some, List, [], ◌∷◌, arith, Uuid, Time, ◌==◌, Bool-cases, Option-cases, any, find, update_where,
  delete_where, All, All-update_where, All-find,
}
use project_hermes.Base.AppError.{AppError, Result, ok, err}
use project_hermes.Access.{
  UserStatus, Claims, Parts, WorkspaceMember, is_suspended, is_member, token_of, from_request_parts,
}
use project_hermes.Access.Tokens.{from_request_parts-ok}
use project_hermes.Accounts.{
  User, RefreshToken, Db, Origin, Crates, TokenBundle, of_member, default_workspace, issued,
  bundle_of, claims_of, issue, verified, authenticate, has_identity, throttle, login, user_by_id,
  logged_in, store_workspace, redeems, renew, redeem, refresh_session, issue_to, with_workspace,
  with_status, switch_workspace,
}
use project_hermes.Accounts.Admin.{toggled, toggle_user_suspend}
use project_hermes.Accounts.Sessions.{issue-ok}
use project_hermes.Accounts.Replay.{Request, log_in, refresh, switch, answer, run}

module _ (id : Uuid) where
  abbrev IsOut : User → Type 0
  IsOut u = u.id ≡ id → is_suspended u.status ≡ true

  abbrev AreOut : Db → Type 0
  AreOut d = All IsOut d.users

  stored-AreOut :
      (user : Uuid) (ws : Option Uuid) (d : Db) → AreOut d → AreOut (store_workspace user ws d)
  stored-AreOut user none d h = h
  stored-AreOut user (some ws) d h =
      All-update_where IsOut (λ (u : User). u.id == user) (with_workspace ws) d.users (λ u p. p) h

  of_member-IsOut : (u : User) (o : Option WorkspaceMember) → IsOut u → IsOut (of_member u o).0
  of_member-IsOut u none h = h
  of_member-IsOut u (some m) h = h

  default_workspace-IsOut :
      (members : List WorkspaceMember) (u : User) (ws : Option Uuid)
      → IsOut u
      → IsOut (default_workspace members u ws).0
  default_workspace-IsOut members u (some ws) h = h
  default_workspace-IsOut members u none h = of_member-IsOut u _ h

  module _ (lib : Crates) where
    -- The new state, and for whom the token is that was issued.
    record Outcome (result : Db × Result TokenBundle) : Type 0 where
      out : AreOut result.0
      token :
          (bundle : TokenBundle)
          → result.1 ≡ ok bundle
          → (claims : Claims) × (lib.encode claims ≡ inr bundle.access_token)
            × (claims.sub ≡ id → is_suspended claims.status ≡ true)

    refused : (d : Db) (error : AppError) → AreOut d → Outcome (d, err error)
    refused d error h = record { out = h; token = λ bundle e. absurd (cc) }

    issued-users :
        (now : Time) (random : String) (u : User) (d : Db) (signed : String ⊎ String)
        → (issued lib u d (bundle_of lib now random signed)).0.users ≡ d.users
    issued-users now random u d (inl e) = refl
    issued-users now random u d (inr token) = refl

    issue-Outcome :
        (now : Time) (random : String) (u : User) (d : Db)
        → IsOut u
        → AreOut d
        → Outcome (issue lib now random u d)
    unfolding issue
    issue-Outcome now random u d mine h = record {
      out = rw (issued-users now random u d (lib.encode (claims_of lib now u))) h;
      token = λ bundle e. (claims_of lib now u, (issue-ok lib now random u d e).0, mine);
    }

    verified-Outcome :
        (now : Time) (from : Origin) (identity random : String) (u : User) (d : Db)
        (r : Result Bool)
        → IsOut u
        → AreOut d
        → Outcome (verified lib now from identity random u d r)
    verified-Outcome now from identity random u d (err e) mine h = refused d e h
    verified-Outcome now from identity random u d (ok false) mine h = refused _ _ h
    verified-Outcome now from identity random u d (ok true) mine h =
        let chosen = default_workspace d.workspace_members u u.current_workspace_id in
        let d' = store_workspace chosen.0.id chosen.1 d in
        issue-Outcome now random chosen.0 _
          (default_workspace-IsOut d.workspace_members u u.current_workspace_id mine)
          (All-update_where IsOut (λ (v : User). v.id == chosen.0.id) (logged_in now from) d'.users
            (λ v p. p) (stored-AreOut chosen.0.id chosen.1 d h))

    authenticate-Outcome :
        (now : Time) (from : Origin) (identity password random : String) (d : Db) (o : Option User)
        → find (has_identity lib identity) d.users ≡ o
        → AreOut d
        → Outcome (authenticate lib now from identity password random d o)
    authenticate-Outcome now from identity password random d none found h = refused _ _ h
    authenticate-Outcome now from identity password random d (some u) found h =
        elim (Bool-cases (is_suspended u.status)) [
          | inl out ↦ rw out (refused _ _ h)
          | inr fine ↦ rw fine (
              verified-Outcome now from identity random u d
                (lib.verify_password password u.password_hash)
                (All-find IsOut (has_identity lib identity) d.users h found) h)
        ]

    renew-Outcome :
        (now : Time) (random : String) (d : Db) (o : Option User) (user : Uuid)
        → find (λ (u : User). u.id == user) d.users ≡ o
        → AreOut d
        → Outcome (renew lib now random d o)
    renew-Outcome now random d none user found h = refused _ _ h
    renew-Outcome now random d (some u) user found h = elim (Bool-cases (is_suspended u.status)) [
      | inl out ↦ rw out (refused _ _ h)
      | inr fine ↦ rw fine (
          issue-Outcome now random u d (All-find IsOut (λ (u : User). u.id == user) d.users h found)
            h)
    ]

    redeem-Outcome :
        (now : Time) (raw random : String) (d : Db) (o : Option RefreshToken)
        → AreOut d
        → Outcome (redeem lib now raw random d o)
    redeem-Outcome now raw random d none h = refused _ _ h
    redeem-Outcome now raw random d (some t) h =
        renew-Outcome now random
          (record d { refresh_tokens = delete_where (redeems lib now raw) d.refresh_tokens })
          (user_by_id t.user_id d) t.user_id refl h

    issue_to-Outcome :
        (now : Time) (random : String) (d : Db) (o : Option User) (user : Uuid)
        → user_by_id user d ≡ o
        → AreOut d
        → Outcome (issue_to lib now random d o)
    issue_to-Outcome now random d none user found h = refused _ _ h
    issue_to-Outcome now random d (some u) user found h =
        issue-Outcome now random u d (All-find IsOut (λ (u : User). u.id == user) d.users h found) h

    answer-Outcome : (d : Db) (r : Request) → AreOut d → Outcome (answer lib d r)
    unfolding login refresh_session switch_workspace
    answer-Outcome d (log_in reachable now from identity password random) h =
        elim (Bool-cases (throttle lib reachable now from d).1) [
          | inl allowed ↦ rw allowed (
              authenticate-Outcome now from identity password random _
                (find (has_identity lib identity) d.users) refl h)
          | inr many ↦ rw many (refused _ _ h)
        ]
    answer-Outcome d (refresh now raw random) h =
        redeem-Outcome now raw random d (find (redeems lib now raw) d.refresh_tokens) h
    answer-Outcome d (switch now claims ws random) h =
        elim (Bool-cases
          (any (is_member ws claims.sub) d.workspace_members || claims.is_super_admin)) [
            | inl may ↦ rw may (
                issue_to-Outcome now random _ _ claims.sub refl (
                  All-update_where IsOut (λ (v : User). v.id == claims.sub) (with_workspace ws)
                    d.users (λ v p. p) h))
            | inr stranger ↦ rw stranger (refused _ _ h)
          ]

    run-AreOut : (d : Db) (rs : List Request) → AreOut d → AreOut (run lib d rs)
    run-AreOut d [] h = h
    run-AreOut d (r ∷ rs) h = run-AreOut (answer lib d r).0 rs (answer-Outcome d r h).out

  suspended_all :
      (users : List User)
      → All IsOut (update_where (λ (u : User). u.id == id) (with_status UserStatus.suspended) users)
  suspended_all [] = tt
  suspended_all (u ∷ users) = elim (Bool-cases (u.id == id)) [
    | inl mine ↦ rw mine (λ _. refl, suspended_all users)
    | inr other ↦ rw other (λ same. absurd (ground (arith, other, same)), suspended_all users)
  ]

  toggled_to :
      (s : UserStatus) (users : List User)
      → ok s ≡ ok UserStatus.suspended
      → All IsOut (update_where (λ (u : User). u.id == id) (with_status s) users)
  toggled_to UserStatus.suspended users e = suspended_all users
  toggled_to UserStatus.active users e = absurd (cc)
  toggled_to UserStatus.pending_verification users e = absurd (cc)

  toggle-AreOut :
      (claims : Claims) (d : Db)
      → (toggle_user_suspend claims id d).1 ≡ ok UserStatus.suspended
      → AreOut (toggle_user_suspend claims id d).0
  unfolding toggle_user_suspend
  toggle-AreOut claims d e = elim (Bool-cases claims.is_super_admin) [
    | inl super ↦ elim (Bool-cases (id == claims.sub)) [
      | inl self ↦ absurd (let e' = rw (super, self) at e in cc)
      | inr apart ↦ elim (Option-cases (user_by_id id d)) [
        | inl absent ↦ absurd (let e' = rw (super, apart, absent) at e in cc)
        | inr (u, found) ↦
            rw (super, apart, found)
              (toggled_to (toggled u.status) d.users (rw (super, apart, found) at e))
      ]
    ]
    | inr plain ↦ absurd (let e' = rw plain at e in cc)
  ]

token_eq : (a b : String) → ok a ≡ ok b → a ≡ b
token_eq a b e = cc

-- Once an account is suspended, and whatever logins, refreshes and switches of workspace follow: no
-- token that these issue is admitted by the middleware with the claims of that account, if a signed
-- token is decoded, where it is decoded at all, to the claims that were signed.
pub suspended-refused :
    (lib : Crates) (decode : String → Option Claims)
    → ((c k : Claims) (t : String) → lib.encode c ≡ inr t → decode t ≡ some k → k ≡ c)
    → (admin : Claims) (id : Uuid) (d : Db)
    → (toggle_user_suspend admin id d).1 ≡ ok UserStatus.suspended
    → (rs : List Request) (r : Request) {bundle : TokenBundle}
    → (answer lib (run lib (toggle_user_suspend admin id d).0 rs) r).1 ≡ ok bundle
    → (parts : Parts) {claims : Claims}
    → token_of parts.authorization parts.query ≡ ok bundle.access_token
    → from_request_parts decode parts ≡ ok claims
    → claims.sub ≢ id
suspended-refused lib decode decodes admin id d toggled rs r {bundle = bundle} answered parts
      {claims = claims} given admitted same =
    let start = toggle-AreOut id admin d toggled in
    let (c, signed, out) =
      (answer-Outcome id lib _ r (run-AreOut id lib _ rs start)).token bundle answered in
    let (token, is_token, decoded, fine) = from_request_parts-ok decode parts admitted in
    let one = token_eq token bundle.access_token (sym is_token ∙ given) in
    let c_is = sym (
      decodes c claims bundle.access_token signed
        (subst (λ t. decode t ≡ some claims) one decoded)) in
    let suspended =
      subst (λ (k : Claims). k.sub ≡ id → is_suspended k.status ≡ true) c_is out same in
    absurd (let clear = fine.not_suspended in cc)
