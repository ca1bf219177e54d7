-- ===== src/Examples/Gc.antt =====
-- The garbage collector (backend/src/utils/gc.rs) at concrete inputs.
use project_hermes.Base.{
  String, ◌≡◌, refl, sym, subst, ◌⊎◌, inl, inr, Bool, true, false, ◌&&◌, Option, none, some, List,
  [], ◌∷◌, arith, str_eq, str_eq_iff, Uuid, Time, secs, ◌==◌, if◌then◌else◌, Bool-cases, any, All,
}
use mathlib.Core.List.{Memᴰ}
use project_hermes.JobQueue.{JobStatus, Job, Jobs, claim_next}
use project_hermes.Gc.{
  AppBuild, Deployment, RegistryApi, Platform, Answers, app_image_repo, last_segment, has_tag,
  delete_registry_manifest, candidates, prune_each, prune_old_builds, prune_orphaned_app_images,
  delete_orphans, prune_cached, prune_build_cache, prune_old_jobs, reap_failed_pods,
  registry_blob_gc, run_gc,
}
use project_hermes.Gc.Images.{UnlinksOnly, ListsTags, IsTag, IsKept}
use project_hermes.Gc.Deployed.{NamesOnly, run_gc-IsKept}
use project_hermes.Gc.Pruning.{claim_next-prune_old_jobs}
use project_hermes.Gc.Retention.{prune_old_builds-protected}

-- A registry: the digest of each tag of a repository, and of the digest that the last image has.
abbrev Manifests : Type 0
Manifests = String → String → Option String

abbrev has_digest : Option String → String → Bool
has_digest none d = false
has_digest (some e) d = str_eq d e

abbrev without : Manifests → String → String → Manifests
without r repo d other reference =
    if str_eq repo other && has_digest (r other reference) d then none else r other reference

abbrev api : RegistryApi Manifests
api = record {
  digest = λ r repo reference. r repo reference;
  unlink = λ r repo d. (without r repo d, true);
  tags = λ r repo. "old" ∷ "new" ∷ "gone" ∷ [];
  image_created_at = λ r repo tag. none;
}

unlinks_only : UnlinksOnly api
unlinks_only = (
  λ r repo d other reference e there apart. rw (there, apart) refl,
  λ r repo d other reference e left.
      elim (Bool-cases (str_eq repo other && has_digest (r other reference) d)) [
        | inl gone ↦ absurd (let clash = rw gone at left in cc)
        | inr stays ↦ rw stays at left
      ],
)

abbrev stored : Manifests
stored repo tag =
    if str_eq repo "hermes-app-image"
    then (if str_eq tag "old"
        then some "sha256:1"
        else if str_eq tag "new"
        then some "sha256:2"
        else if str_eq tag "gone"
        then some "sha256:3"
        else if str_eq tag "sha256:2"
        then some "sha256:2"
        else none)
    else none

abbrev build : Uuid → String → Time → AppBuild
build id tag created_at = record {
  id = id;
  app_id = 7;
  status = "succeeded";
  image_tag = some tag;
  created_at = created_at;
}

abbrev first_build : AppBuild
first_build = build 1 "registry:5000/hermes-app-image:old" 10

abbrev second_build : AppBuild
second_build = build 2 "registry:5000/hermes-app-image:new" 20

abbrev two_builds : List AppBuild
two_builds = first_build ∷ second_build ∷ []

abbrev one_instance : List Deployment
one_instance = record { id = 5; current_image_tag = some "registry:5000/hermes-app-image:new" } ∷ []

abbrev text : Uuid → String
text id = if id == 1 then "old" else "new"

abbrev queue_job : Uuid → JobStatus → Time → Job String
queue_job id status at = record {
  id = id;
  kind = "build";
  payload = "";
  status = status;
  attempts = 0;
  max_attempts = 3;
  run_after = at;
  locked_at = none;
  locked_by = none;
  last_error = none;
  created_at = at;
  updated_at = at;
}

abbrev two_jobs : Jobs String
two_jobs = queue_job 1 JobStatus.succeeded 0 ∷ queue_job 2 JobStatus.queued 0 ∷ []

abbrev settings : Answers
settings = record {
  keep = 1;
  cache_days = 3;
  job_days = 7;
  blob_gc_off = false;
  reads_candidates = true;
  deletes_build = λ id. true;
  reads_builds = true;
  reads_instances = false;
  deletes_jobs = true;
  reads_active = true;
  deletes_pod = λ namespace name. true;
}

abbrev platform : Platform Manifests String
platform = record {
  registry = stored;
  builds = two_builds;
  instances = one_instance;
  jobs = two_jobs;
  failed_pods = ("hermes-ws-1", "app-1") ∷ ("kube-system", "dns") ∷ [];
}

-- The old build goes with its image, and the image without a build.
passed : (run_gc api text settings (secs 864000) platform).1 ≡ record {
  images_deleted = 2;
  builds_pruned = 1;
  jobs_pruned = 1;
  pods_reaped = 1;
  blob_gc = true;
}
unfolding run_gc prune_old_builds prune_each candidates last_segment delete_registry_manifest
    prune_orphaned_app_images delete_orphans prune_build_cache prune_cached prune_old_jobs
    reap_failed_pods registry_blob_gc
passed = refl

in_use : any (has_tag "registry:5000/hermes-app-image:new") one_instance ≡ true
in_use = refl

abbrev new_image : String
new_image = last_segment "registry:5000/hermes-app-image:new"

is_new : last_segment "registry:5000/hermes-app-image:new" ≡ "new"
unfolding last_segment
is_new = refl

is_old : last_segment "registry:5000/hermes-app-image:old" ≡ "old"
unfolding last_segment
is_old = refl

old_not_new : str_eq "old" new_image ≡ true → ⊥
unfolding last_segment
old_not_new h = absurd (cc)

only_new : (tag : String) → IsTag tag → stored app_image_repo tag ≡ some "sha256:2" → tag ≡ "new"
only_new tag named h = elim (Bool-cases (str_eq tag "new")) [
  | inl same ↦ (str_eq_iff tag "new").0 same
  | inr other ↦ elim (Bool-cases (str_eq tag "old")) [
    | inl old ↦ absurd (let h' = rw old at h in differ "sha256:1" refl h')
    | inr not_old ↦ elim (Bool-cases (str_eq tag "gone")) [
      | inl gone ↦ absurd (let h' = rw (not_old, other, gone) at h in differ "sha256:3" refl h')
      | inr not_gone ↦ elim (Bool-cases (str_eq tag "sha256:2")) [
        | inl digest ↦
            absurd
              (let clash = subst IsTag ((str_eq_iff tag "sha256:2").0 digest) named in no_tag clash)
        | inr none_of ↦ absurd (let h' = rw (not_old, other, not_gone, none_of) at h in cc)
      ]
    ]
  ]
]
  where
    no_tag : IsTag "sha256:2" → ⊥
    no_tag h = absurd (cc)

    differ : (d : String) → str_eq d "sha256:2" ≡ false → some d ≡ some "sha256:2" → ⊥
    differ d apart e =
        let equal : d ≡ "sha256:2" = cc in
        let same = (str_eq_iff d "sha256:2").1 equal in absurd (cc)

lists_tags : ListsTags api
lists_tags r repo = (refl, (refl, (refl, tt)))

stored_new : IsKept api "new" "sha256:2" stored
stored_new = (refl, only_new)

names : All (NamesOnly "registry:5000/hermes-app-image:new") two_builds
names = (
  λ tag e same.
      let equal : "registry:5000/hermes-app-image:old" ≡ tag = cc in
      let clash = subst (λ t. str_eq (last_segment t) new_image ≡ true) (sym equal) same in
      absurd (let clash' = rw (is_old) at clash in old_not_new clash'),
  (λ tag e same. cc, tt),
)

second_only : (c : AppBuild) → Memᴰ c two_builds → c.id ≡ second_build.id → c ≡ second_build
second_only c (Memᴰ.head e) same =
    absurd (let clash : 1 ≡ 2 = subst (λ (x : AppBuild). x.id ≡ 2) e same in omega arith)
second_only c (Memᴰ.tail (Memᴰ.head e)) same = e
second_only c (Memᴰ.tail (Memᴰ.tail m)) same = elim m [ ]

referenced :
    (false ≡ true)
    ⊎ ((b : AppBuild) × Memᴰ b two_builds
        × (b.image_tag ≡ some "registry:5000/hermes-app-image:new")
        × ((c : AppBuild) → Memᴰ c two_builds → c.id ≡ b.id → c ≡ b))
referenced = inr (second_build, Memᴰ.tail (Memᴰ.head refl), refl, second_only)

run_gc-IsKept_example :
    IsKept api
      (last_segment "registry:5000/hermes-app-image:new")
      "sha256:2"
      (run_gc api text settings (secs 864000) platform).0.registry
run_gc-IsKept_example =
    run_gc-IsKept api unlinks_only lists_tags "registry:5000/hermes-app-image:new" "sha256:2" text
      settings (secs 864000) platform in_use names referenced
      (subst (λ t. IsKept api t "sha256:2" stored) (sym is_new) stored_new)

claim_next-prune_old_jobs_example :
    (claim_next
      (λ id. false)
      (secs 864001)
      "worker"
      (prune_old_jobs true 7 (secs 864000) two_jobs).0).0
    ≡ (claim_next (λ id. false) (secs 864001) "worker" two_jobs).0
claim_next-prune_old_jobs_example =
    claim_next-prune_old_jobs (λ id. false) true 7 (secs 864000) (secs 864001) "worker" two_jobs

prune_old_builds-protected_example :
    Memᴰ second_build
      (prune_old_builds api true (λ id. true) 1 one_instance stored two_builds).builds
prune_old_builds-protected_example =
    prune_old_builds-protected second_build api true (λ id. true) 1 one_instance stored two_builds
      (Memᴰ.tail (Memᴰ.head refl)) second_only (inr (inl (omega arith)))
