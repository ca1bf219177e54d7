-- ===== src/Gc/Deployed.antt =====
-- `run_gc` of backend/src/utils/gc.rs: the image of a deployed instance stays in the registry.
use project_hermes.Base.{
  ℕ, String, ◌≡◌, refl, sym, ap, subst, ◌⊎◌, inl, inr, Bool, true, false, ◌||◌, Option, none, some,
  List, [], ◌∷◌, str_eq, str_eq_iff, Uuid, Time, Bool-cases, any, All, All-append,
}
use mathlib.Core.List.{Memᴰ}
use project_hermes.Gc.{
  app_image_repo, build_cache_repo, AppBuild, Deployment, RegistryApi, Platform, Answers,
  last_segment, has_tag, same_tag, tagged, candidates, if_read, prune_old_builds, segment_is,
  is_live, if_instances, prune_orphaned_app_images, prune_build_cache, run_gc,
}
use project_hermes.Gc.Images.{
  UnlinksOnly, ListsTags, first_tags-IsTag, IsKept, IsOther, prune_each-IsKept, orphans-IsKept,
  cached-IsKept,
}
use project_hermes.Gc.Retention.{prune_old_builds-protected}

-- No other tag of a build ends like the deployed one.
abbrev pub NamesOnly : String → AppBuild → Type 0
NamesOnly deployed b =
    (tag : String)
    → b.image_tag ≡ some tag
    → str_eq (last_segment tag) (last_segment deployed) ≡ true
    → tag ≡ deployed

module _ {R : Type 0} (api : RegistryApi R) where
  module _ (only : UnlinksOnly api) (lists : ListsTags api) (deployed e : String) where
    abbrev image : String
    image = last_segment deployed

    tagged-IsOther :
        (superseded : Bool) (instances : List Deployment) (id : Uuid) (o : Option String)
        → any (has_tag deployed) instances ≡ true
        → ((tag : String) → o ≡ some tag → str_eq (last_segment tag) image ≡ true → tag ≡ deployed)
        → All (IsOther image) (tagged superseded instances id o)
    tagged-IsOther superseded instances id none in_use names = tt
    tagged-IsOther false instances id (some tag) in_use names = tt
    tagged-IsOther true instances id (some tag) in_use names =
        elim (Bool-cases (any (has_tag tag) instances)) [
          | inl used ↦ rw used tt
          | inr unused ↦ rw unused (elim (Bool-cases (str_eq (last_segment tag) image)) [
            | inr other ↦ (other, tt)
            | inl same ↦
                let clash =
                  subst (λ t. any (has_tag t) instances ≡ false) (names tag refl same) unused in
                absurd (cc)
          ])
        ]

    candidates-IsOther :
        (keep : ℕ) (instances : List Deployment) (before builds : List AppBuild)
        → any (has_tag deployed) instances ≡ true
        → All (NamesOnly deployed) builds
        → All (IsOther image) (candidates keep instances before builds)
    unfolding candidates
    candidates-IsOther keep instances before [] in_use names = tt
    candidates-IsOther keep instances before (b ∷ after) in_use names =
        All-append (IsOther image) _ _ (tagged-IsOther _ instances b.id b.image_tag in_use names.0)
          (candidates-IsOther keep instances (b ∷ before) after in_use names.1)

    read-IsOther :
        (read : Bool) (rows : List (Uuid × String))
        → All (IsOther image) rows
        → All (IsOther image) (if_read api read rows)
    read-IsOther true rows h = h
    read-IsOther false rows h = tt

    in_use_live :
        (i : Deployment)
        → has_tag deployed i ≡ true
        → segment_is api image i.current_image_tag ≡ true
    in_use_live i h = of_tag i.current_image_tag h
      where
        of_tag : (o : Option String) → same_tag deployed o ≡ true → segment_is api image o ≡ true
        of_tag none h = absurd (cc)
        of_tag (some tag) h =
            let same = (str_eq_iff tag deployed).0 h in
            (str_eq_iff (last_segment tag) image).1 (ap last_segment same)

    any_live :
        (instances : List Deployment)
        → any (has_tag deployed) instances ≡ true
        → any (λ (i : Deployment). segment_is api image i.current_image_tag) instances ≡ true
    any_live [] h = absurd (cc)
    any_live (i ∷ instances) h = elim (Bool-cases (has_tag deployed i)) [
      | inl here ↦ let live = in_use_live i here in rw live refl
      | inr other ↦
          let rest = any_live instances (rw other at h) in
          elim (Bool-cases (segment_is api image i.current_image_tag)) [
            | inl live ↦ rw live refl
            | inr dead ↦ rw dead rest
          ]
    ]

    or_first : (a b : Bool) → a ≡ true → (a || b) ≡ true
    or_first a b h = rw h refl

    live_or : (a b : Bool) → b ≡ true → (a || b) ≡ true
    live_or a b h = elim (Bool-cases a) [ inl holds ↦ rw holds refl | inr fails ↦ rw fails h ]

    any_built :
        (text : Uuid → String) (builds : List AppBuild) (b : AppBuild)
        → b.image_tag ≡ some deployed
        → Memᴰ b builds
        → any
            (λ (c : AppBuild). str_eq (text c.id) image || segment_is api image c.image_tag)
            builds
          ≡ true
    any_built text [] b tag m = elim m [ ]
    any_built text (c ∷ builds) b tag (Memᴰ.head e) =
        let tag' : c.image_tag ≡ some deployed =
          subst (λ (x : AppBuild). x.image_tag ≡ some deployed) e tag in
        let live =
          subst (λ o. segment_is api image o ≡ true) (sym tag') ((str_eq_iff image image).1 refl) in
        or_first _ _ (live_or (str_eq (text c.id) image) _ live)
    any_built text (c ∷ builds) b tag (Memᴰ.tail m) = live_or _ _ (any_built text builds b tag m)

    -- The image is named by an instance that is read, or by a build's row.
    abbrev IsNamed : Bool → List AppBuild → Type 0
    IsNamed read builds =
        (read ≡ true) ⊎ ((b : AppBuild) × Memᴰ b builds × (b.image_tag ≡ some deployed))

    named_live :
        (read : Bool) (text : Uuid → String) (builds : List AppBuild) (instances : List Deployment)
        → any (has_tag deployed) instances ≡ true
        → IsNamed read builds
        → is_live api text builds (if_instances api read instances) image ≡ true
    named_live true text builds instances in_use named = live_or _ _ (any_live instances in_use)
    named_live false text builds instances in_use (inl clash) = absurd (cc)
    named_live false text builds instances in_use (inr (b, m, tag)) =
        or_first _ _ (any_built text builds b tag m)

    image_pass-IsKept :
        (answered read : Bool) (text : Uuid → String) (builds : List AppBuild)
        (instances : List Deployment) (r : R)
        → any (has_tag deployed) instances ≡ true
        → IsNamed read builds
        → IsKept api image e r
        → IsKept api image e (prune_orphaned_app_images api answered read text builds instances r).0
    unfolding prune_orphaned_app_images
    image_pass-IsKept false read text builds instances r in_use named kept = kept
    image_pass-IsKept true read text builds instances r in_use named kept =
        orphans-IsKept api only image e _ _ r (lists r app_image_repo)
          (named_live read text builds instances in_use named) kept

    -- The instances are read, or the table has the build that made the image.
    abbrev pub IsReferenced : Bool → List AppBuild → Type 0
    IsReferenced read builds =
        (read ≡ true)
        ⊎ ((b : AppBuild) × Memᴰ b builds
            × (b.image_tag ≡ some deployed)
            × ((c : AppBuild) → Memᴰ c builds → c.id ≡ b.id → c ≡ b))

    same_tag_in_use :
        (instances : List Deployment) (o : Option String)
        → any (has_tag deployed) instances ≡ true
        → o ≡ some deployed
        → (tag : String) → o ≡ some tag
        → any (has_tag tag) instances ≡ true
    same_tag_in_use instances o in_use e tag h =
        let equal : deployed ≡ tag = cc in
        subst (λ t. any (has_tag t) instances ≡ true) equal in_use

    referenced-IsNamed :
        {J : Type 0} (a : Answers) (p : Platform R J)
        → any (has_tag deployed) p.instances ≡ true
        → IsReferenced a.reads_instances p.builds
        → IsNamed a.reads_instances
            (prune_old_builds api a.reads_candidates a.deletes_build a.keep p.instances p.registry
              p.builds).builds
    referenced-IsNamed a p in_use (inl read) = inl read
    referenced-IsNamed a p in_use (inr (b, m, tag, unique)) = inr (
      b,
      prune_old_builds-protected b api a.reads_candidates a.deletes_build a.keep p.instances
          p.registry p.builds m unique
          (inr (inr (same_tag_in_use p.instances b.image_tag in_use tag))),
      tag,
    )

    -- A pass of the garbage collector leaves the image that an instance runs in the registry,
    -- whatever the pass prunes and whichever of its other queries fail, if the instances are read
    -- or the row of the image's build is there, no build has another tag with the same last
    -- segment, no other tag shares the image's digest, what the registry lists are tags (without a
    -- colon), and its DELETE of a digest takes away that manifest alone and adds none; then no
    -- other tag shares the digest after it either.
    pub run_gc-IsKept :
        {J : Type 0} (text : Uuid → String) (a : Answers) (now : Time) (p : Platform R J)
        → any (has_tag deployed) p.instances ≡ true
        → All (NamesOnly deployed) p.builds
        → IsReferenced a.reads_instances p.builds
        → IsKept api (last_segment deployed) e p.registry
        → IsKept api (last_segment deployed) e (run_gc api text a now p).0.registry
    unfolding run_gc prune_build_cache prune_old_builds
    run_gc-IsKept text a now p in_use names referenced kept =
        cached-IsKept api only image e a.cache_days now _ _
          (first_tags-IsTag api 1000 _ (lists _ build_cache_repo))
          (image_pass-IsKept a.reads_builds a.reads_instances text _ p.instances _ in_use
            (referenced-IsNamed a p in_use referenced)
            (prune_each-IsKept api only image e a.deletes_build _ _
              (read-IsOther a.reads_candidates _
                (candidates-IsOther a.keep p.instances [] p.builds in_use names))
              kept))
