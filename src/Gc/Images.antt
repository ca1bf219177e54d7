-- ===== src/Gc/Images.antt =====
-- The deletions of images in backend/src/utils/gc.rs, and an image that none of them names.
use project_hermes.Base.{
  zero, suc, ◌==◌, Option-cases, ℕ, String, ◌≡◌, refl, sym, ap, ◌∙◌, subst, ◌⊎◌, inl, inr, Bool,
  true, false, ◌&&◌, Option, none, some, List, [], ◌∷◌, str_eq, str_eq_iff, Uuid, Time, Bool-cases,
  All,
}
use Prim.Native.Char.{code}
use project_hermes.Gc.{
  after_colon, last_colon, first_tags, RegistryApi, Pass, app_image_repo, build_cache_repo,
  last_segment, unlink_found, delete_registry_manifest, delete_build, delete_image, prune_each,
  spare, delete_orphans, expire, prune_cached,
}

-- A tag has no colon; a digest, by which the registry's API names a manifest too, has one.
abbrev pub IsTag : String → Type 0
IsTag reference = after_colon reference ≡ none

colon_last :
    (colon : Bool) (s : String) (o : Option String) {t : String}
    → after_colon s ≡ o
    → ((u : String) → o ≡ some u → IsTag u)
    → last_colon colon s o ≡ some t
    → IsTag t
colon_last colon s (some segment) {t = t} e inner h = inner t h
colon_last true s none {t = t} e inner h =
    let same : s ≡ t = some_string s t h in subst IsTag same e
  where
    some_string : (a b : String) → some a ≡ some b → a ≡ b
    some_string a b e = cc
colon_last false s none e inner h = absurd (cc)

after_colon-IsTag : (s t : String) → after_colon s ≡ some t → IsTag t
after_colon-IsTag String.[] t h = absurd (cc)
after_colon-IsTag (String.◌∷◌ c s) t h =
    colon_last (code c == 58) s (after_colon s) refl (λ u e. after_colon-IsTag s u e) h

last_segment-IsTag : (s : String) → IsTag (last_segment s)
unfolding last_segment
last_segment-IsTag s = elim (Option-cases (after_colon s)) [
  | inl whole ↦ rw whole whole
  | inr (t, found) ↦ rw found (after_colon-IsTag s t found)
]

pub first_tags-IsTag :
    {R : Type 0} (api : RegistryApi R) (n : ℕ) (tags : List String)
    → All IsTag tags
    → All IsTag (first_tags api n tags)
first_tags-IsTag api zero tags h = tt
first_tags-IsTag api (suc n) [] h = tt
first_tags-IsTag api (suc n) (tag ∷ tags) h = (h.0, first_tags-IsTag api n tags h.1)

abbrev pub IsOther : String → Uuid × String → Type 0
IsOther image (id, tag) = str_eq (last_segment tag) image ≡ false

module _ {R : Type 0} (api : RegistryApi R) where
  -- What a DELETE of a digest does in the registry: it takes away nothing but that manifest, and adds
  -- none.
  abbrev pub UnlinksOnly : Type 0
  UnlinksOnly =
      ((r : R) (repo d other reference e : String)
        → api.digest r other reference ≡ some e
        → (str_eq repo other && str_eq d e) ≡ false
        → api.digest (api.unlink r repo d).0 other reference ≡ some e)
      × ((r : R) (repo d other reference e : String)
          → api.digest (api.unlink r repo d).0 other reference ≡ some e
          → api.digest r other reference ≡ some e)

  -- What it lists are tags.
  abbrev pub ListsTags : Type 0
  ListsTags = (r : R) (repo : String) → All IsTag (api.tags r repo)

  -- The image is there, and no other tag of the repository has its digest.
  abbrev pub IsKept : String → String → R → Type 0
  IsKept image e r =
      (api.digest r app_image_repo image ≡ some e)
      × ((tag : String) → IsTag tag → api.digest r app_image_repo tag ≡ some e → tag ≡ image)

  module _ (only : UnlinksOnly) (image e : String) where
    unlink-IsKept :
        (r : R) (repo reference : String)
        → IsTag reference
        → (str_eq repo app_image_repo && str_eq reference image) ≡ false
        → IsKept image e r
        → (found : Option String) → api.digest r repo reference ≡ found
        → IsKept image e (unlink_found api r repo found).0
    unlink-IsKept r repo reference named apart kept none h = kept
    unlink-IsKept r repo reference named apart kept (some d) h = (
      only.0 r repo d app_image_repo image e kept.0
          (elim (Bool-cases (str_eq repo app_image_repo)) [
            | inr other ↦ rw other refl
            | inl same ↦ elim (Bool-cases (str_eq d e)) [
              | inr differ ↦ rw (same, differ) refl
              | inl equal ↦
                  let here =
                    subst (λ t. api.digest r t reference ≡ some d)
                      ((str_eq_iff repo app_image_repo).0 same) h in
                  let there = kept.1 reference named (here ∙ ap some ((str_eq_iff d e).0 equal)) in
                  let is_image = (str_eq_iff reference image).1 there in
                  absurd (let clash = rw (same, is_image) at apart in cc)
            ]
          ]),
      λ tag is_tag left. kept.1 tag is_tag (only.1 r repo d app_image_repo tag e left),
    )

    manifest-IsKept :
        (r : R) (repo reference : String)
        → IsTag reference
        → (str_eq repo app_image_repo && str_eq reference image) ≡ false
        → IsKept image e r
        → IsKept image e (delete_registry_manifest api r repo reference).0
    unfolding delete_registry_manifest
    manifest-IsKept r repo reference named apart kept =
        unlink-IsKept r repo reference named apart kept (api.digest r repo reference) refl

    other_image :
        (tag : String)
        → str_eq tag image ≡ false
        → (str_eq app_image_repo app_image_repo && str_eq tag image) ≡ false
    other_image tag h = rw h (refl)

    deleted-IsKept :
        (b : Bool) (id : Uuid) (p : Pass api)
        → IsKept image e p.registry
        → IsKept image e (delete_build api b id p).registry
    deleted-IsKept true id p kept = kept
    deleted-IsKept false id p kept = kept

    pub prune_each-IsKept :
        (answers : Uuid → Bool) (rows : List (Uuid × String)) (p : Pass api)
        → All (IsOther image) rows
        → IsKept image e p.registry
        → IsKept image e (prune_each api answers rows p).registry
    unfolding prune_each
    prune_each-IsKept answers [] p others kept = kept
    prune_each-IsKept answers ((id, tag) ∷ rows) p others kept =
        prune_each-IsKept answers rows _ others.1 (
          deleted-IsKept (answers id) id (delete_image api tag p) (
            manifest-IsKept p.registry app_image_repo (last_segment tag) (last_segment-IsTag tag)
              (other_image (last_segment tag) others.0) kept))

    spare-IsKept :
        (b : Bool) (r : R) (tag : String)
        → IsTag tag
        → (b ≡ true) ⊎ (str_eq tag image ≡ false)
        → IsKept image e r
        → IsKept image e (spare api b r tag).0
    spare-IsKept true r tag named h kept = kept
    spare-IsKept false r tag named (inl h) kept = absurd (cc)
    spare-IsKept false r tag named (inr h) kept =
        manifest-IsKept r app_image_repo tag named (other_image tag h) kept

    live_or_other :
        (live : String → Bool) (tag : String)
        → live image ≡ true
        → (live tag ≡ true) ⊎ (str_eq tag image ≡ false)
    live_or_other live tag h = elim (Bool-cases (str_eq tag image)) [
      | inl same ↦ inl (subst (λ t. live t ≡ true) (sym ((str_eq_iff tag image).0 same)) h)
      | inr other ↦ inr other
    ]

    pub orphans-IsKept :
        (live : String → Bool) (tags : List String) (r : R)
        → All IsTag tags
        → live image ≡ true
        → IsKept image e r
        → IsKept image e (delete_orphans api live tags r).0
    unfolding delete_orphans
    orphans-IsKept live [] r named h kept = kept
    orphans-IsKept live (tag ∷ tags) r named h kept =
        orphans-IsKept live tags _ named.1 h
          (spare-IsKept (live tag) r tag named.0 (live_or_other live tag h) kept)

    expire-IsKept :
        (b : Bool) (r : R) (tag : String)
        → IsTag tag
        → IsKept image e r
        → IsKept image e (expire api b r tag).0
    expire-IsKept false r tag named kept = kept
    expire-IsKept true r tag named kept = manifest-IsKept r build_cache_repo tag named refl kept

    pub cached-IsKept :
        (days : ℕ) (now : Time) (tags : List String) (r : R)
        → All IsTag tags
        → IsKept image e r
        → IsKept image e (prune_cached api days now tags r).0
    unfolding prune_cached
    cached-IsKept days now [] r named kept = kept
    cached-IsKept days now (tag ∷ tags) r named kept =
        cached-IsKept days now tags _ named.1 (expire-IsKept _ r tag named.0 kept)
