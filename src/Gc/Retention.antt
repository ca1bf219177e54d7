-- ===== src/Gc/Retention.antt =====
-- The builds that `prune_old_builds` of backend/src/utils/gc.rs leaves.
use project_hermes.Base.{
  ℕ, ◌+◌, ◌≤◌, String, ◌≡◌, refl, sym, subst, ◌⊎◌, inl, inr, Bool, true, false, ◌&&◌, not, Option,
  none, some, List, [], ◌∷◌, arith, Uuid, ltb, leb, ◌==◌, ==_iff, Bool-cases, count_where, any,
  delete_where, All, All-append,
}
use mathlib.Core.List.{Memᴰ}
use project_hermes.Gc.{
  AppBuild, Deployment, RegistryApi, Pass, is_in_progress, is_peer, row_number, has_tag, tagged,
  candidates, delete_build, delete_image, prune_each, prune_old_builds,
}

module _ (b : AppBuild) where
  -- A finished build of the same app that is not older.
  abbrev pub is_newer : AppBuild → Bool
  is_newer c = is_peer b c && leb b.created_at c.created_at

  abbrev strictly : AppBuild → Bool
  strictly c = is_peer b c && ltb b.created_at c.created_at

  -- What protects a build: that it is in progress, that it is one of the newest, or that an instance
  -- runs it.
  abbrev pub IsProtected : ℕ → List Deployment → List AppBuild → Type 0
  IsProtected keep instances builds =
      (is_in_progress b ≡ true)
      ⊎ (count_where is_newer builds ≤ keep)
      ⊎ ((tag : String) → b.image_tag ≡ some tag → any (has_tag tag) instances ≡ true)

  strictly_newer :
      (builds : List AppBuild) → count_where strictly builds ≤ count_where is_newer builds
  strictly_newer [] = omega arith
  strictly_newer (c ∷ builds) = ground (arith, strictly_newer builds)

  superseded_not :
      (keep : ℕ) (before after : List AppBuild)
      → is_in_progress b ≡ false
      → count_where is_newer before + count_where is_newer (b ∷ after) ≤ keep
      → ltb keep (row_number before b after) ≡ false
  superseded_not keep before after done few =
      let self : is_newer b ≡ true = ground (arith, done, ==_iff b.app_id b.app_id) in
      let few' = rw self at few in ground (arith, few', strictly_newer after)

  tagged_not :
      (instances : List Deployment) (id : Uuid) (o : Option String)
      → tagged false instances id o ≡ []
  tagged_not instances id none = refl
  tagged_not instances id (some tag) = refl

  tagged_deployed :
      (superseded : Bool) (instances : List Deployment) (id : Uuid) (o : Option String)
      → ((tag : String) → o ≡ some tag → any (has_tag tag) instances ≡ true)
      → tagged superseded instances id o ≡ []
  tagged_deployed superseded instances id none h = refl
  tagged_deployed false instances id (some tag) h = refl
  tagged_deployed true instances id (some tag) h = let used = h tag refl in rw used refl

  abbrev IsOther : Uuid × String → Type 0
  IsOther (id, tag) = (b.id == id) ≡ false

  -- The build is no row of the query.
  tagged_protected :
      (keep : ℕ) (instances : List Deployment) (before after : List AppBuild)
      → (is_in_progress b ≡ true)
        ⊎ (count_where is_newer before + count_where is_newer (b ∷ after) ≤ keep)
        ⊎ ((tag : String) → b.image_tag ≡ some tag → any (has_tag tag) instances ≡ true)
      → tagged
          (not (is_in_progress b) && ltb keep (row_number before b after))
          instances
          b.id
          b.image_tag
        ≡ []
  tagged_protected keep instances before after (inl busy) =
      rw busy (tagged_not instances b.id b.image_tag)
  tagged_protected keep instances before after (inr (inr used)) =
      tagged_deployed _ instances b.id b.image_tag used
  tagged_protected keep instances before after (inr (inl few)) =
      elim (Bool-cases (is_in_progress b)) [
        | inl busy ↦ rw busy (tagged_not instances b.id b.image_tag)
        | inr done ↦
            let late = superseded_not keep before after done few in
            rw (done, late) (tagged_not instances b.id b.image_tag)
      ]

  tagged-IsOther :
      (superseded : Bool) (instances : List Deployment) (id : Uuid) (o : Option String)
      → (b.id == id) ≡ false
      → All IsOther (tagged superseded instances id o)
  tagged-IsOther superseded instances id none h = tt
  tagged-IsOther false instances id (some tag) h = tt
  tagged-IsOther true instances id (some tag) h = elim (Bool-cases (any (has_tag tag) instances)) [
    | inl used ↦ rw used tt
    | inr free ↦ rw free (h, tt)
  ]

  abbrev IsSafe : ℕ → List Deployment → List AppBuild → List AppBuild → Type 0
  IsSafe keep instances before after =
      (is_in_progress b ≡ true)
      ⊎ (count_where is_newer before + count_where is_newer after ≤ keep)
      ⊎ ((tag : String) → b.image_tag ≡ some tag → any (has_tag tag) instances ≡ true)

  at_start :
      (keep : ℕ) (instances : List Deployment) (builds : List AppBuild)
      → IsProtected keep instances builds
      → IsSafe keep instances [] builds
  at_start keep instances builds (inl busy) = inl busy
  at_start keep instances builds (inr (inl few)) = inr (inl (omega arith))
  at_start keep instances builds (inr (inr used)) = inr (inr used)

  passed-IsSafe :
      (keep : ℕ) (instances : List Deployment) (before after : List AppBuild) (c : AppBuild)
      → IsSafe keep instances before (c ∷ after)
      → IsSafe keep instances (c ∷ before) after
  passed-IsSafe keep instances before after c (inl busy) = inl busy
  passed-IsSafe keep instances before after c (inr (inr used)) = inr (inr used)
  passed-IsSafe keep instances before after c (inr (inl few)) = inr (inl (moved few))
    where
      moved :
          count_where is_newer before + count_where is_newer (c ∷ after) ≤ keep
          → count_where is_newer (c ∷ before) + count_where is_newer after ≤ keep
      moved h = elim (Bool-cases (is_newer c)) [
        | inl newer ↦ rw newer (let h' = rw newer at h in omega arith)
        | inr older ↦ rw older (rw older at h)
      ]

  candidates-IsOther :
      (keep : ℕ) (instances : List Deployment) (before after : List AppBuild)
      → ((c : AppBuild) → Memᴰ c after → c.id ≡ b.id → c ≡ b)
      → IsSafe keep instances before after
      → All IsOther (candidates keep instances before after)
  unfolding candidates
  candidates-IsOther keep instances before [] unique safe = tt
  candidates-IsOther keep instances before (c ∷ after) unique safe =
      All-append IsOther _ _
        (elim (Bool-cases (b.id == c.id)) [
          | inr other ↦ tagged-IsOther _ instances c.id c.image_tag other
          | inl same ↦
              let equal = unique c (Memᴰ.head refl) (sym ((==_iff b.id c.id).0 same)) in
              here c equal safe
        ])
        (candidates-IsOther keep instances (c ∷ before) after
          (λ d member. unique d (Memᴰ.tail member))
          (passed-IsSafe keep instances before after c safe))
    where
      here :
          (c : AppBuild)
          → c ≡ b
          → IsSafe keep instances before (c ∷ after)
          → All IsOther (
              tagged
                (not (is_in_progress c) && ltb keep (row_number before c after))
                instances
                c.id
                c.image_tag)
      here c equal safe =
          subst
            (λ x. All IsOther (
              tagged (not (is_in_progress x) && ltb keep (row_number before x after)) instances x.id
                x.image_tag))
            (sym equal)
            (subst (All IsOther)
              (sym (
                tagged_protected keep instances before after
                  (subst (λ x. IsSafe keep instances before (x ∷ after)) equal safe)))
              tt)

  left :
      (q : AppBuild → Bool) (builds : List AppBuild)
      → q b ≡ false
      → Memᴰ b builds
      → Memᴰ b (delete_where q builds)
  left q [] h m = elim m [ ]
  left q (c ∷ builds) h (Memᴰ.head e) =
      let stays = subst (λ x. q x ≡ false) e h in rw stays (Memᴰ.head e)
  left q (c ∷ builds) h (Memᴰ.tail m) = elim (Bool-cases (q c)) [
    | inl gone ↦ rw gone (left q builds h m)
    | inr stays ↦ rw stays (Memᴰ.tail (left q builds h m))
  ]

  module _ {R : Type 0} (api : RegistryApi R) where
    left_row :
        (answered : Bool) (id : Uuid) (p : Pass api)
        → (b.id == id) ≡ false
        → Memᴰ b p.builds
        → Memᴰ b (delete_build api answered id p).builds
    left_row true id p other m = left (λ (c : AppBuild). c.id == id) p.builds other m
    left_row false id p other m = m

    left_each :
        (answers : Uuid → Bool) (rows : List (Uuid × String)) (p : Pass api)
        → All IsOther rows
        → Memᴰ b p.builds
        → Memᴰ b (prune_each api answers rows p).builds
    unfolding prune_each
    left_each answers [] p others m = m
    left_each answers ((id, tag) ∷ rows) p others m =
        left_each answers rows _ others.1
          (left_row (answers id) id (delete_image api tag p) others.0 m)

    -- The pruning of builds keeps the row of a build that is in progress, or among the newest of
    -- its app that are to be kept, or whose image an instance runs, if no other row has its id.
    pub prune_old_builds-protected :
        (read : Bool) (answers : Uuid → Bool) (keep : ℕ) (instances : List Deployment) (r : R)
        (builds : List AppBuild)
        → Memᴰ b builds
        → ((c : AppBuild) → Memᴰ c builds → c.id ≡ b.id → c ≡ b)
        → IsProtected keep instances builds
        → Memᴰ b (prune_old_builds api read answers keep instances r builds).builds
    unfolding prune_old_builds
    prune_old_builds-protected true answers keep instances r builds m unique protected =
        left_each answers _ _
          (candidates-IsOther keep instances [] builds unique
            (at_start keep instances builds protected))
          m
    prune_old_builds-protected false answers keep instances r builds m unique protected =
        left_each answers [] _ tt m
