-- ===== src/Gc.antt =====
-- backend/src/utils/gc.rs: a pass of the garbage collector over the builds, the images of the
-- registry, the finished jobs and the failed pods. The registry's HTTP API is an interface; the
-- cluster's answers and those of the DELETEs are arguments, and the settings of the environment too.
pub mod Deployed
pub mod Images
pub mod Pruning
pub mod Retention
use project_hermes.Base.{
  ℕ, zero, suc, ◌+◌, ◌-◌, ◌*◌, ◌/◌, ◌%◌, ◌^◌, ◌≤◌, ◌<◌, min, max, String, ◌≡◌, refl, sym, ap, ◌∙◌,
  subst, ◌≢◌, ◌↔◌, ◌⊎◌, inl, inr, Bool, true, false, ◌&&◌, ◌||◌, not, Option, none, some, List, [],
  ◌∷◌, ◌++◌, arith, str_eq, str_eq_iff, Uuid, Time, secs, ltb, leb, ◌==◌, if◌then◌else◌, ltb→lt,
  lt→ltb, leb→le, ==_iff, tests, Bool-cases, Option-cases, length, select, count_where, any, find,
  update_where, delete_where, All, map, All-append, All-if, All-update_where, All-delete_where,
  All-find,
}
use Prim.Native.String
use project_hermes.JobQueue.{JobStatus, Job, Jobs}
use Prim.Native.Char.{code}
use project_hermes.Base.{starts_with}

-- A row of app_builds.
pub record AppBuild : Type 0 where
  pub id : Uuid
  pub app_id : Uuid
  pub status : String
  pub image_tag : Option String
  pub created_at : Time

-- What a row of app_instances says of its image.
pub record Deployment : Type 0 where
  pub id : Uuid
  pub current_image_tag : Option String

-- What the registry answers: the digest of a manifest, the outcome of the DELETE of a digest, the tags
-- of a repository, and the time in an image's config.
pub record RegistryApi (R : Type 0) : Type 0 where
  pub digest : R → String → String → Option String
  pub unlink : R → String → String → R × Bool
  pub tags : R → String → List String
  pub image_created_at : R → String → String → Option Time

abbrev pub app_image_repo : String
app_image_repo = "hermes-app-image"

abbrev pub build_cache_repo : String
build_cache_repo = "hermes-build-cache"

-- `rsplit(':').next()`: what follows the last colon, or all of it.
abbrev pub last_colon : Bool → String → Option String → Option String
last_colon colon s (some segment) = some segment
last_colon true s none = some s
last_colon false s none = none

abbrev pub after_colon : String → Option String
after_colon String.[] = none
after_colon (String.◌∷◌ c s) = last_colon (code c == 58) s (after_colon s)

abbrev pub or_all : String → Option String → String
or_all s (some segment) = segment
or_all s none = s

unfoldable pub last_segment : String → String
last_segment s = or_all s (after_colon s)

abbrev pub is_in_progress : AppBuild → Bool
is_in_progress b = str_eq b.status "building" || str_eq b.status "queued"

abbrev pub is_peer : AppBuild → AppBuild → Bool
is_peer b c = c.app_id == b.app_id && not (is_in_progress c)

-- `row_number() OVER (PARTITION BY app_id ORDER BY created_at DESC)` of the finished builds; of two
-- that were created at one time the earlier row comes first.
abbrev pub row_number : List AppBuild → AppBuild → List AppBuild → ℕ
row_number before b after = suc (
    count_where (λ (c : AppBuild). is_peer b c && leb b.created_at c.created_at) before
    + count_where (λ (c : AppBuild). is_peer b c && ltb b.created_at c.created_at) after)

abbrev pub same_tag : String → Option String → Bool
same_tag tag none = false
same_tag tag (some current) = str_eq current tag

abbrev pub has_tag : String → Deployment → Bool
has_tag tag i = same_tag tag i.current_image_tag

-- The row of a build for the query, if it has an image.
abbrev pub tagged : Bool → List Deployment → Uuid → Option String → List (Uuid × String)
tagged superseded instances id none = []
tagged superseded instances id (some tag) =
    if superseded && not (any (has_tag tag) instances) then (id, tag) ∷ [] else []

-- The rows of the query of `prune_old_builds`; `before` are those already passed.
unfoldable pub candidates :
    ℕ → List Deployment → List AppBuild → List AppBuild → List (Uuid × String)
candidates keep instances before [] = []
candidates keep instances before (b ∷ after) =
    tagged (not (is_in_progress b) && ltb keep (row_number before b after)) instances b.id
      b.image_tag
    ++ candidates keep instances (b ∷ before) after

abbrev pub counted : Bool → ℕ
counted true = 1
counted false = 0

module _ {R : Type 0} (api : RegistryApi R) where
  abbrev pub unlink_found : R → String → Option String → R × Bool
  unlink_found r repo none = (r, false)
  unlink_found r repo (some d) = api.unlink r repo d

  unfoldable pub delete_registry_manifest : R → String → String → R × Bool
  delete_registry_manifest r repo reference = unlink_found r repo (api.digest r repo reference)

  -- The registry and the builds, `builds_pruned` and `images_deleted`.
  pub record Pass : Type 0 where
    pub registry : R
    pub builds : List AppBuild
    pub builds_pruned : ℕ
    pub images_deleted : ℕ

  -- DELETE FROM app_builds WHERE id = $1, if the database answers.
  abbrev pub delete_build : Bool → Uuid → Pass → Pass
  delete_build false id p = p
  delete_build true id p = record p {
    builds = delete_where (λ (b : AppBuild). b.id == id) p.builds;
    builds_pruned = p.builds_pruned + counted (any (λ (b : AppBuild). b.id == id) p.builds);
  }

  abbrev pub delete_image : String → Pass → Pass
  delete_image tag p =
      let gone = delete_registry_manifest p.registry app_image_repo (last_segment tag) in
      record p { registry = gone.0; images_deleted = p.images_deleted + counted gone.1 }

  unfoldable pub prune_each : (Uuid → Bool) → List (Uuid × String) → Pass → Pass
  prune_each answers [] p = p
  prune_each answers ((id, tag) ∷ rows) p =
      prune_each answers rows (delete_build (answers id) id (delete_image tag p))

  abbrev pub if_read : Bool → List (Uuid × String) → List (Uuid × String)
  if_read true rows = rows
  if_read false rows = []

  -- A query that fails prunes nothing.
  unfoldable pub prune_old_builds :
      Bool → (Uuid → Bool) → ℕ → List Deployment → R → List AppBuild → Pass
  prune_old_builds read answers keep instances r builds =
      prune_each answers (if_read read (candidates keep instances [] builds))
        (record { registry = r; builds = builds; builds_pruned = 0; images_deleted = 0 })

  abbrev pub segment_is : String → Option String → Bool
  segment_is tag none = false
  segment_is tag (some t) = str_eq (last_segment t) tag

  -- `live.contains(tag)`; the ids are text.
  abbrev pub is_live : (Uuid → String) → List AppBuild → List Deployment → String → Bool
  is_live text builds instances tag =
      any (λ (b : AppBuild). str_eq (text b.id) tag || segment_is tag b.image_tag) builds
      || any (λ (i : Deployment). segment_is tag i.current_image_tag) instances

  abbrev pub spare : Bool → R → String → R × Bool
  spare true r tag = (r, false)
  spare false r tag = delete_registry_manifest r app_image_repo tag

  unfoldable pub delete_orphans : (String → Bool) → List String → R → R × ℕ
  delete_orphans live [] r = (r, 0)
  delete_orphans live (tag ∷ tags) r =
      let gone = spare (live tag) r tag in
      let rest = delete_orphans live tags gone.0 in (rest.0, counted gone.1 + rest.1)

  abbrev pub if_instances : Bool → List Deployment → List Deployment
  if_instances true instances = instances
  if_instances false instances = []

  -- The first flag is that the builds are read, the second that the instances are.
  unfoldable pub prune_orphaned_app_images :
      Bool → Bool → (Uuid → String) → List AppBuild → List Deployment → R → R × ℕ
  prune_orphaned_app_images false read text builds instances r = (r, 0)
  prune_orphaned_app_images true read text builds instances r =
      delete_orphans (is_live text builds (if_instances read instances)) (api.tags r app_image_repo)
        r

  abbrev pub first_tags : ℕ → List String → List String
  first_tags zero tags = []
  first_tags (suc n) [] = []
  first_tags (suc n) (tag ∷ tags) = tag ∷ first_tags n tags

  abbrev pub is_expired : ℕ → Time → Option Time → Bool
  is_expired days now none = false
  is_expired days now (some created) = ltb (created + secs (days * 86400)) now

  abbrev pub expire : Bool → R → String → R × Bool
  expire false r tag = (r, false)
  expire true r tag = delete_registry_manifest r build_cache_repo tag

  unfoldable pub prune_cached : ℕ → Time → List String → R → R × ℕ
  prune_cached days now [] r = (r, 0)
  prune_cached days now (tag ∷ tags) r =
      let gone = expire (is_expired days now (api.image_created_at r build_cache_repo tag)) r tag in
      let rest = prune_cached days now tags gone.0 in (rest.0, counted gone.1 + rest.1)

  unfoldable pub prune_build_cache : ℕ → Time → R → R × ℕ
  prune_build_cache days now r =
      prune_cached days now (first_tags 1000 (api.tags r build_cache_repo)) r

abbrev pub is_finished : JobStatus → Bool
is_finished JobStatus.succeeded = true
is_finished JobStatus.failed = true
is_finished _ = false

abbrev pub is_old_job : {J : Type 0} → ℕ → Time → Job J → Bool
is_old_job days now j = is_finished j.status && ltb (j.updated_at + secs (days * 86400)) now

-- The table after the DELETE, if it is answered, and the rows affected.
unfoldable pub prune_old_jobs : {J : Type 0} → Bool → ℕ → Time → Jobs J → Jobs J × ℕ
prune_old_jobs true days now jobs =
    (delete_where (is_old_job days now) jobs, count_where (is_old_job days now) jobs)
prune_old_jobs false days now jobs = (jobs, 0)

abbrev pub active : Bool → List AppBuild → ℕ
active true builds = count_where is_in_progress builds
active false builds = 0

-- A setting, or a build in progress, puts the collection of blobs off; a query that fails reads as no
-- builds.
unfoldable pub registry_blob_gc : Bool → Bool → List AppBuild → Bool
registry_blob_gc off read builds = not off && not (ltb 0 (active read builds))

-- Failed pods, by namespace and name, that are deleted; `deleted` are the cluster's answers.
abbrev pub is_reaped : (String → String → Bool) → String × String → Bool
is_reaped deleted (namespace, name) =
    not (str_eq name "") && starts_with namespace "hermes-ws-" && deleted namespace name

unfoldable pub reap_failed_pods : (String → String → Bool) → List (String × String) → ℕ
reap_failed_pods deleted pods = count_where (is_reaped deleted) pods

-- The settings, and what of the pass is answered: the queries of the builds, of the orphans' builds and
-- of their instances, the DELETEs of a build's row, of jobs and of a pod, and the count of the builds
-- in progress.
pub record Answers : Type 0 where
  pub keep : ℕ
  pub cache_days : ℕ
  pub job_days : ℕ
  pub blob_gc_off : Bool
  pub reads_candidates : Bool
  pub deletes_build : Uuid → Bool
  pub reads_builds : Bool
  pub reads_instances : Bool
  pub deletes_jobs : Bool
  pub reads_active : Bool
  pub deletes_pod : String → String → Bool

-- What a pass works on.
pub record Platform (R J : Type 0) : Type 0 where
  pub registry : R
  pub builds : List AppBuild
  pub instances : List Deployment
  pub jobs : Jobs J
  pub failed_pods : List (String × String)

-- The row of gc_runs, and if the collection of blobs is started.
pub record GcRun : Type 0 where
  pub images_deleted : ℕ
  pub builds_pruned : ℕ
  pub jobs_pruned : ℕ
  pub pods_reaped : ℕ
  pub blob_gc : Bool

unfoldable pub run_gc :
    {R J : Type 0}
    → RegistryApi R
    → (Uuid → String)
    → Answers
    → Time
    → Platform R J
    → Platform R J × GcRun
run_gc api text a now p =
    let first =
      prune_old_builds api a.reads_candidates a.deletes_build a.keep p.instances p.registry
        p.builds in
    let orphans =
      prune_orphaned_app_images api a.reads_builds a.reads_instances text first.builds p.instances
        first.registry in
    let cache = prune_build_cache api a.cache_days now orphans.0 in
    let jobs = prune_old_jobs a.deletes_jobs a.job_days now p.jobs in
    let deleted = first.images_deleted + orphans.1 + cache.1 in
    (
      record p { registry = cache.0; builds = first.builds; jobs = jobs.0 },
      record {
        images_deleted = deleted;
        builds_pruned = first.builds_pruned;
        jobs_pruned = jobs.1;
        pods_reaped = reap_failed_pods a.deletes_pod p.failed_pods;
        blob_gc = ltb 0 deleted && registry_blob_gc a.blob_gc_off a.reads_active first.builds;
      },
    )
