-- ===== src/AppEnv/Republish.antt =====
-- `publish_project_env` of backend/src/utils/app_env.rs: a resource that publishes again keeps its
-- variable, and so the links of the apps to it.
use project_hermes.Base.{
  suc, String, ◌≡◌, refl, ap, ◌∙◌, inl, inr, Bool, true, Option, none, some, List, [], ◌∷◌, arith,
  str_eq_iff, Uuid, ◌==◌, ==_iff, Bool-cases, length, find, update_where,
}
use project_hermes.AppEnv.{
  ProjectEnv, Publication, is_published, refreshed, taken_over, has_project_key, published,
  insert_or_take, refresh_or_insert, publish_project_env,
}

some_eq : {v w : ProjectEnv} → some v ≡ some w → v ≡ w
some_eq e = cc

module _ (project : Uuid) (source : String) (source_id : Uuid) where
  abbrev pub run : List Publication → List ProjectEnv → List ProjectEnv
  run [] rows = rows
  run (p ∷ ps) rows = run ps (publish_project_env project source source_id p rows).0

  abbrev pub is_mine : ProjectEnv → Bool
  is_mine = is_published project source source_id

  abbrev pub Holds : Publication → ProjectEnv → Type 0
  Holds p v =
      (v.encrypted_value ≡ p.encrypted_value) × (v.nonce ≡ p.nonce) × (v.is_secret ≡ p.is_secret)

  find-refreshed :
      (p : Publication) (rows : List ProjectEnv) {old : ProjectEnv}
      → find is_mine rows ≡ some old
      → find is_mine (
          update_where
            (λ (v : ProjectEnv). v.id == old.id)
            (refreshed p.encrypted_value p.nonce p.is_secret)
            rows)
        ≡ some (refreshed p.encrypted_value p.nonce p.is_secret old)
  find-refreshed p [] e = absurd (cc)
  find-refreshed p (v ∷ rows) {old = old} e = elim (Bool-cases (is_mine v)) [
    | inl mine ↦
        let e' = rw mine at e in
        let same : v ≡ old = some_eq e' in
        let self : (v.id == old.id) ≡ true =
          (==_iff v.id old.id).1 (ap (λ (x : ProjectEnv). x.id) same) in
        rw (self, mine)
          (ap (λ (x : ProjectEnv). some (refreshed p.encrypted_value p.nonce p.is_secret x)) same)
    | inr other ↦
        let rest = find-refreshed p rows (rw other at e) in
        elim (Bool-cases (v.id == old.id)) [
          | inl hit ↦ rw (hit, other) rest
          | inr miss ↦ rw (miss, other) rest
        ]
  ]

  taken_over-is_mine :
      (p : Publication) (v : ProjectEnv)
      → has_project_key project p.key v ≡ true
      → is_mine (taken_over p.encrypted_value p.nonce p.is_secret source source_id v) ≡ true
  taken_over-is_mine p v has =
      ground (arith, has, str_eq_iff source source, ==_iff source_id source_id)

  published-is_mine : (p : Publication) → is_mine (published project source source_id p) ≡ true
  published-is_mine p = ground (arith, str_eq_iff source source, ==_iff source_id source_id)

  find-taken_over :
      (p : Publication) (rows : List ProjectEnv) {old : ProjectEnv}
      → find is_mine rows ≡ none
      → find (has_project_key project p.key) rows ≡ some old
      → find is_mine (
          update_where
            (has_project_key project p.key)
            (taken_over p.encrypted_value p.nonce p.is_secret source source_id)
            rows)
        ≡ some (taken_over p.encrypted_value p.nonce p.is_secret source source_id old)
  find-taken_over p [] n e = absurd (cc)
  find-taken_over p (v ∷ rows) {old = old} n e = elim (Bool-cases (is_mine v)) [
    | inl mine ↦ absurd (let n' = rw mine at n in cc)
    | inr other ↦ elim (Bool-cases (has_project_key project p.key v)) [
      | inl has ↦
          let e' = rw has at e in
          let same : v ≡ old = some_eq e' in
          rw (has, taken_over-is_mine p v has)
            (ap
              (λ (x : ProjectEnv).
                some (taken_over p.encrypted_value p.nonce p.is_secret source source_id x))
              same)
      | inr has_not ↦ rw (has_not, other) (find-taken_over p rows (rw other at n) (rw has_not at e))
    ]
  ]

  -- The variable of the resource after a call.
  abbrev pub Published : Publication → List ProjectEnv × Uuid → ProjectEnv → Type 0
  Published p result v = (find is_mine result.0 ≡ some v) × (v.id ≡ result.1) × Holds p v

  insert_or_take-Published :
      (p : Publication) (rows : List ProjectEnv) (o : Option ProjectEnv)
      → find is_mine rows ≡ none
      → find (has_project_key project p.key) rows ≡ o
      → (v : ProjectEnv) × Published p (insert_or_take project source source_id p rows o) v
  insert_or_take-Published p rows none absent free = (
    published project source source_id p,
    (rw (published-is_mine p) refl, refl, (refl, refl, refl)),
  )
  insert_or_take-Published p rows (some old) absent taken = (
    taken_over p.encrypted_value p.nonce p.is_secret source source_id old,
    (find-taken_over p rows absent taken, refl, (refl, refl, refl)),
  )

  refresh_or_insert-Published :
      (p : Publication) (rows : List ProjectEnv) (o : Option ProjectEnv)
      → find is_mine rows ≡ o
      → (v : ProjectEnv) × Published p (refresh_or_insert project source source_id p rows o) v
  refresh_or_insert-Published p rows none absent =
      insert_or_take-Published p rows (find (has_project_key project p.key) rows) absent refl
  refresh_or_insert-Published p rows (some old) found = (
    refreshed p.encrypted_value p.nonce p.is_secret old,
    (find-refreshed p rows found, refl, (refl, refl, refl)),
  )

  publish_project_env-Published :
      (p : Publication) (rows : List ProjectEnv)
      → (v : ProjectEnv) × Published p (publish_project_env project source source_id p rows) v
  unfolding publish_project_env
  publish_project_env-Published p rows = refresh_or_insert-Published p rows (find is_mine rows) refl

  length_updated :
      (q : ProjectEnv → Bool) (f : ProjectEnv → ProjectEnv) (rows : List ProjectEnv)
      → length (update_where q f rows) ≡ length rows
  length_updated q f [] = refl
  length_updated q f (v ∷ rows) = ap suc (length_updated q f rows)

  -- A call by a resource that has a variable.
  again :
      (p : Publication) (rows : List ProjectEnv) {old : ProjectEnv}
      → find is_mine rows ≡ some old
      → ((publish_project_env project source source_id p rows).1 ≡ old.id)
        × (find is_mine (publish_project_env project source source_id p rows).0
            ≡ some (refreshed p.encrypted_value p.nonce p.is_secret old))
        × (length (publish_project_env project source source_id p rows).0 ≡ length rows)
  unfolding publish_project_env
  again p rows {old = old} found = rw found (
    refl,
    find-refreshed p rows found,
    length_updated (λ (v : ProjectEnv). v.id == old.id)
        (refreshed p.encrypted_value p.nonce p.is_secret) rows,
  )

  -- The last of the calls, or the value at the start.
  abbrev pub last : Publication → List Publication → Publication
  last p [] = p
  last p (q ∷ qs) = last q qs

  run_kept :
      (p : Publication) (qs : List Publication) (rows : List ProjectEnv) (v : ProjectEnv)
      → find is_mine rows ≡ some v
      → Holds p v
      → (w : ProjectEnv) × (find is_mine (run qs rows) ≡ some w)
        × (w.id ≡ v.id)
        × (w.key ≡ v.key)
        × Holds (last p qs) w
        × (length (run qs rows) ≡ length rows)
  run_kept p [] rows v found holds = (v, found, refl, refl, holds, refl)
  run_kept p (q ∷ qs) rows v found holds =
      let (id, then_found, count) = again q rows found in
      let (w, at_end, same_id, same_key, kept, counts) =
        run_kept q qs (publish_project_env project source source_id q rows).0 _ then_found
          (refl, refl, refl) in
      (w, at_end, same_id, same_key, kept, counts ∙ count)

  -- A resource that publishes a variable in a project and then publishes again any number of times
  -- keeps one variable, with the id that the first call returned and the key it had then, also if
  -- that is not the suggested one; it holds the value of the last call; the number of variables
  -- does not change after the first call.
  pub publish_project_env-run :
      (p : Publication) (qs : List Publication) (rows : List ProjectEnv)
      → (v : ProjectEnv) × (w : ProjectEnv) × (find is_mine
            (publish_project_env project source source_id p rows).0
          ≡ some v)
        × (v.id ≡ (publish_project_env project source source_id p rows).1)
        × (find is_mine (run qs (publish_project_env project source source_id p rows).0) ≡ some w)
        × (w.id ≡ v.id)
        × (w.key ≡ v.key)
        × Holds (last p qs) w
        × (length (run qs (publish_project_env project source source_id p rows).0)
            ≡ length (publish_project_env project source source_id p rows).0)
  publish_project_env-run p qs rows =
      let (v, (found, id, holds)) = publish_project_env-Published p rows in
      let (w, at_end, same_id, same_key, kept, count) = run_kept p qs _ v found holds in
      (v, w, found, id, at_end, same_id, same_key, kept, count)
