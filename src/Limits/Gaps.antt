-- ===== src/Limits/Gaps.antt =====
-- Requests of backend/src/controllers that pass the quota checks and leave a workspace over its
-- limit, or make room in it that is not there.
use project_hermes.Base.{◌+◌, ◌≡◌, refl, true, none, some, [], ◌∷◌, arith, ==_iff}
use project_hermes.Base.Int.{
  sub_ℕ, wrap_i64-le_pos, ℤ, pos, negsuc, ◌+ℤ◌, ◌*ℤ◌, ltb_ℤ, ◌≤ℤ◌, int_laws,
}
use project_hermes.Base.AppError.{ok, Message}
use project_hermes.Limits.{
  App, AppInstance, Workspace, Tables, used_memory, check_workspace_memory_limit, within,
}
use project_hermes.Limits.Memory.{same_id}
use project_hermes.Limits.Requests.{if_positive, update_instance_settings, with_settings}

alone_sum : (m : ℤ) → m +ℤ pos 0 +ℤ pos 0 +ℤ pos 0 ≡ m
alone_sum m = omega int_laws

-- The only resource of the workspace `ws`.
abbrev pub alone : Workspace → App → AppInstance → Tables
alone w a r = record {
  workspaces = w ∷ [];
  apps = a ∷ [];
  app_instances = r ∷ [];
  databases = [];
  serverless_instances = [];
}

-- An amount that fits once passes the test, if nothing else is used.
fits_alone :
    (limit memory : ℤ) (message : Message)
    → ltb_ℤ (pos 0) limit ≡ true
    → memory ≤ℤ limit
    → if_positive memory (within limit (pos 0) memory message) ≡ ok tt
unfolding ◌+ℤ◌
fits_alone limit (negsuc n) message limited fits = ground arith
fits_alone limit (pos n) message limited fits =
    let same : sub_ℕ (0 + n) (0 + 0) ≡ pos n = ground arith in
    let below = wrap_i64-le_pos n in rw same (ground (arith, limited, below, fits))

-- In a workspace with a memory limit whose only resource is an instance, a new memory limit of that
-- instance that fits once, and does not fit at the replicas it may scale to, is accepted, and then
-- the workspace is over its limit.
pub update_instance_settings-used_memory :
    (w : Workspace) (a : App) (r : AppInstance) (memory : ℤ)
    → a.workspace_id ≡ w.id
    → r.app_id ≡ a.id
    → ltb_ℤ (pos 0) w.max_memory_mb ≡ true
    → memory ≤ℤ w.max_memory_mb
    → ltb_ℤ w.max_memory_mb (memory *ℤ r.replicas_max) ≡ true
    → (t : Tables) × (update_instance_settings
          (alone w a r)
          w.id
          a.id
          r.id
          (some memory)
          none
          none
          none
        ≡ ok t)
      × (ltb_ℤ w.max_memory_mb (used_memory t w.id none) ≡ true)
unfolding update_instance_settings check_workspace_memory_limit used_memory ◌+ℤ◌
update_instance_settings-used_memory w a r memory mine its limited fits over = (
  record (alone w a r) { app_instances = with_settings (some memory) none none none r ∷ [] },
  rw (same_id w.id, same_id r.id, its, same_id a.id, (==_iff a.workspace_id w.id).1 mine)
      (rw (fits_alone w.max_memory_mb memory _ limited fits) refl),
  rw (its, same_id a.id, (==_iff a.workspace_id w.id).1 mine, alone_sum (memory *ℤ r.replicas_max))
      over,
)
