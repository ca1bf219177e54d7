-- ===== src/Accounts/Replay.antt =====
-- A refresh token of backend/src/controllers/auth_controller.rs serves once.
use project_hermes.Base.{
  ◌≤◌, String, ◌≡◌, refl, ◌⊎◌, inl, inr, Bool, true, false, ◌||◌, Option, none, some, List, [], ◌∷◌,
  arith, str_eq, Uuid, Time, Bool-cases, any, find, delete_where, All, All-delete_where,
}
use project_hermes.Base.AppError.{Result, ok, err, literal, auth}
use project_hermes.Access.{Claims, is_suspended, is_member}
use project_hermes.Accounts.{
  User, RefreshToken, Db, Origin, Crates, TokenBundle, default_workspace, issued, bundle_of,
  claims_of, issue, verified, authenticate, has_identity, throttle, login, user_by_id,
  store_workspace, redeems, renew, redeem, refresh_session, issue_to, switch_workspace,
}

-- A request about sessions, with the time of its arrival and the token that it draws.
pub data Request : Type 0 where
  log_in : Bool → Time → Origin → String → String → String → Request
  refresh : Time → String → String → Request
  switch : Time → Claims → Uuid → String → Request

abbrev pub drawn : Request → String
drawn (log_in reachable now from identity password random) = random
drawn (refresh now raw random) = random
drawn (switch now claims ws random) = random

module _ (lib : Crates) where
  abbrev pub answer : Db → Request → Db × Result TokenBundle
  answer d (log_in reachable now from identity password random) =
      login lib reachable now from identity password random d
  answer d (refresh now raw random) = refresh_session lib now raw random d
  answer d (switch now claims ws random) = switch_workspace lib now claims ws random d

  abbrev pub run : Db → List Request → Db
  run d [] = d
  run d (r ∷ rs) = run (answer d r).0 rs

  module _ (hash : String) (used : Time) where
    -- No row of the hash is valid after `used`.
    abbrev IsSpent : RefreshToken → Type 0
    IsSpent t = str_eq t.token hash ≡ true → t.expires_at ≤ used

    abbrev AreSpent : Db → Type 0
    AreSpent d = All IsSpent d.refresh_tokens

    issued-AreSpent :
        (now : Time) (random : String) (u : User) (d : Db) (signed : String ⊎ String)
        → str_eq (lib.sha256 random) hash ≡ false
        → AreSpent d
        → AreSpent (issued lib u d (bundle_of lib now random signed)).0
    issued-AreSpent now random u d (inl e) other h = h
    issued-AreSpent now random u d (inr token) other h = (λ same. absurd (cc), h)

    issue-AreSpent :
        (now : Time) (random : String) (u : User) (d : Db)
        → str_eq (lib.sha256 random) hash ≡ false
        → AreSpent d
        → AreSpent (issue lib now random u d).0
    unfolding issue
    issue-AreSpent now random u d =
        issued-AreSpent now random u d (lib.encode (claims_of lib now u))

    stored-AreSpent :
        (id : Uuid) (ws : Option Uuid) (d : Db) → AreSpent d → AreSpent (store_workspace id ws d)
    stored-AreSpent id none d h = h
    stored-AreSpent id (some ws) d h = h

    verified-AreSpent :
        (now : Time) (from : Origin) (identity random : String) (u : User) (d : Db)
        (r : Result Bool)
        → str_eq (lib.sha256 random) hash ≡ false
        → AreSpent d
        → AreSpent (verified lib now from identity random u d r).0
    verified-AreSpent now from identity random u d (err e) other h = h
    verified-AreSpent now from identity random u d (ok false) other h = h
    verified-AreSpent now from identity random u d (ok true) other h =
        let chosen = default_workspace d.workspace_members u u.current_workspace_id in
        issue-AreSpent now random chosen.0 _ other (stored-AreSpent chosen.0.id chosen.1 d h)

    authenticate-AreSpent :
        (now : Time) (from : Origin) (identity password random : String) (d : Db) (o : Option User)
        → str_eq (lib.sha256 random) hash ≡ false
        → AreSpent d
        → AreSpent (authenticate lib now from identity password random d o).0
    authenticate-AreSpent now from identity password random d none other h = h
    authenticate-AreSpent now from identity password random d (some u) other h =
        elim (Bool-cases (is_suspended u.status)) [
          | inl out ↦ rw out h
          | inr fine ↦ rw fine (
              verified-AreSpent now from identity random u d
                (lib.verify_password password u.password_hash) other h)
        ]

    renew-AreSpent :
        (now : Time) (random : String) (d : Db) (o : Option User)
        → str_eq (lib.sha256 random) hash ≡ false
        → AreSpent d
        → AreSpent (renew lib now random d o).0
    renew-AreSpent now random d none other h = h
    renew-AreSpent now random d (some u) other h = elim (Bool-cases (is_suspended u.status)) [
      | inl out ↦ rw out h
      | inr fine ↦ rw fine (issue-AreSpent now random u d other h)
    ]

    redeem-AreSpent :
        (now : Time) (raw random : String) (d : Db) (o : Option RefreshToken)
        → str_eq (lib.sha256 random) hash ≡ false
        → AreSpent d
        → AreSpent (redeem lib now raw random d o).0
    redeem-AreSpent now raw random d none other h = h
    redeem-AreSpent now raw random d (some t) other h =
        renew-AreSpent now random _ (user_by_id t.user_id d) other
          (All-delete_where IsSpent (redeems lib now raw) d.refresh_tokens h)

    issue_to-AreSpent :
        (now : Time) (random : String) (d : Db) (o : Option User)
        → str_eq (lib.sha256 random) hash ≡ false
        → AreSpent d
        → AreSpent (issue_to lib now random d o).0
    issue_to-AreSpent now random d none other h = h
    issue_to-AreSpent now random d (some u) other h = issue-AreSpent now random u d other h

    answer-AreSpent :
        (d : Db) (r : Request)
        → str_eq (lib.sha256 (drawn r)) hash ≡ false
        → AreSpent d
        → AreSpent (answer d r).0
    unfolding login refresh_session switch_workspace
    answer-AreSpent d (log_in reachable now from identity password random) other h =
        elim (Bool-cases (throttle lib reachable now from d).1) [
          | inl allowed ↦ rw allowed (
              authenticate-AreSpent now from identity password random _
                (find (has_identity lib identity) d.users) other h)
          | inr many ↦ rw many h
        ]
    answer-AreSpent d (refresh now raw random) other h =
        redeem-AreSpent now raw random d (find (redeems lib now raw) d.refresh_tokens) other h
    answer-AreSpent d (switch now claims ws random) other h =
        elim (Bool-cases
          (any (is_member ws claims.sub) d.workspace_members || claims.is_super_admin)) [
            | inl may ↦ rw may (issue_to-AreSpent now random _ _ other h)
            | inr stranger ↦ rw stranger h
          ]

    run-AreSpent :
        (d : Db) (rs : List Request)
        → All (λ r. str_eq (lib.sha256 (drawn r)) hash ≡ false) rs
        → AreSpent d
        → AreSpent (run d rs)
    run-AreSpent d [] other h = h
    run-AreSpent d (r ∷ rs) other h =
        run-AreSpent (answer d r).0 rs other.1 (answer-AreSpent d r other.0 h)

  -- The DELETE leaves no valid row.
  deleted-IsSpent :
      (now : Time) (raw : String) (tokens : List RefreshToken)
      → All (IsSpent (lib.sha256 raw) now) (delete_where (redeems lib now raw) tokens)
  deleted-IsSpent now raw [] = tt
  deleted-IsSpent now raw (t ∷ tokens) = elim (Bool-cases (redeems lib now raw t)) [
    | inl gone ↦ rw gone (deleted-IsSpent now raw tokens)
    | inr kept ↦ rw kept (λ same. ground (arith, same, kept), deleted-IsSpent now raw tokens)
  ]

  spent_absent :
      (used now : Time) (raw : String) (tokens : List RefreshToken)
      → used ≤ now
      → All (IsSpent (lib.sha256 raw) used) tokens
      → find (redeems lib now raw) tokens ≡ none
  spent_absent used now raw [] late h = refl
  spent_absent used now raw (t ∷ tokens) late h =
      elim (Bool-cases (str_eq t.token (lib.sha256 raw))) [
        | inl same ↦
            let old = h.0 same in ground (arith, same, spent_absent used now raw tokens late h.1)
        | inr other ↦ rw other (spent_absent used now raw tokens late h.1)
      ]

  redeemed-AreSpent :
      (now : Time) (raw random : String) (d : Db) (o : Option RefreshToken) {bundle : TokenBundle}
      → str_eq (lib.sha256 random) (lib.sha256 raw) ≡ false
      → (redeem lib now raw random d o).1 ≡ ok bundle
      → All (IsSpent (lib.sha256 raw) now) (redeem lib now raw random d o).0.refresh_tokens
  redeemed-AreSpent now raw random d none other e = absurd (cc)
  redeemed-AreSpent now raw random d (some t) other e =
      renew-AreSpent (lib.sha256 raw) now now random _ (user_by_id t.user_id d) other
        (deleted-IsSpent now raw d.refresh_tokens)

  -- A refresh token that was exchanged is refused at any later time and changes nothing, whatever
  -- logins, refreshes and switches of workspace came in between, if no token drawn since has the
  -- same hash.
  pub refresh_session-once :
      (now later : Time) (raw random again : String) (d : Db) (rs : List Request)
      {bundle : TokenBundle}
      → now ≤ later
      → str_eq (lib.sha256 random) (lib.sha256 raw) ≡ false
      → All (λ r. str_eq (lib.sha256 (drawn r)) (lib.sha256 raw) ≡ false) rs
      → (refresh_session lib now raw random d).1 ≡ ok bundle
      → refresh_session lib later raw again (run (refresh_session lib now raw random d).0 rs) ≡ (
        run (refresh_session lib now raw random d).0 rs,
        err (auth (literal "Invalid or expired refresh token.")),
      )
  unfolding refresh_session
  refresh_session-once now later raw random again d rs late other others e =
      let spent =
        redeemed-AreSpent now raw random d (find (redeems lib now raw) d.refresh_tokens) other e in
      let after = run-AreSpent (lib.sha256 raw) now _ rs others spent in
      rw (spent_absent now later raw _ late after) refl
