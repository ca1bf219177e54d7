-- ===== src/Chaos.antt =====
-- backend/src/utils/chaos.rs: experiments that put a fault on an app instance for a while. The state
-- is the experiments' table, the incidents of Health, and the replicas of the deployments, as far as
-- the experiments set them. What Kubernetes and the INSERT answer are arguments. An experiment has the
-- container of its instance (the JOIN); the events that are broadcast are left out.
pub mod Start
pub mod Revert
pub mod Restore
pub mod Worker
use project_hermes.Base.{
  ℕ, zero, suc, ◌+◌, ◌-◌, ◌*◌, ◌/◌, ◌%◌, ◌^◌, ◌≤◌, ◌<◌, min, max, String, ◌≡◌, refl, sym, ap, ◌∙◌,
  subst, ◌≢◌, ◌↔◌, ◌⊎◌, inl, inr, Bool, true, false, ◌&&◌, ◌||◌, not, Option, none, some, List, [],
  ◌∷◌, ◌++◌, arith, str_eq, str_eq_iff, starts_with, Uuid, Time, secs, ltb, leb, ◌==◌,
  if◌then◌else◌, ltb→lt, lt→ltb, leb→le, ==_iff, tests, Bool-cases, Option-cases, length, select,
  count_where, any, find, update_where, delete_where, All, map, All-append, All-if,
  All-update_where, All-delete_where, All-find,
}
use project_hermes.Base.Int.{unwrap_or, clamp, ℤ, pos, pos_part, ltb_ℤ}
use project_hermes.Base.AppError.{
  Piece, text, num, Message, literal, AppError, validation, Result, ok, err,
}
use project_hermes.Health.{Incident, incident, is_open, resolved}

abbrev pub min_duration_sec : ℤ
min_duration_sec = pos 5

abbrev pub max_duration_sec : ℤ
max_duration_sec = pos 300

abbrev pub clamp_duration : Option ℤ → ℤ
clamp_duration secs = clamp min_duration_sec max_duration_sec (unwrap_or (pos 60) secs)

pub record Experiment : Type 0 where
  pub id : Uuid
  pub workspace_id : Uuid
  pub app_instance_id : Uuid
  pub container_name : String
  pub kind : String
  pub status : String
  pub original_replicas : Option ℤ
  pub message : Message
  pub started_at : Time
  pub revert_at : Option Time
  pub ended_at : Option Time

pub record Deployment : Type 0 where
  pub workspace_id : Uuid
  pub container_name : String
  pub replicas : ℤ

pub record World : Type 0 where
  pub experiments : List Experiment
  pub incidents : List Incident
  pub deployments : List Deployment

-- K8sManager::scale_deployment, where it succeeds, in the namespace of the workspace.
abbrev pub is_deployment : Uuid → String → Deployment → Bool
is_deployment ws container d = d.workspace_id == ws && str_eq d.container_name container

abbrev pub scaled : ℤ → Deployment → Deployment
scaled replicas d = record d { replicas = replicas }

abbrev pub scale_deployment : Uuid → String → ℤ → World → World
scale_deployment ws container replicas w = record w {
  deployments = update_where (is_deployment ws container) (scaled replicas) w.deployments;
}

-- format!("CHAOS_{}", kind.to_uppercase()) of the two kinds that open an incident.
abbrev pub chaos_type : String → String
chaos_type kind = if str_eq kind "scale_down" then "CHAOS_SCALE_DOWN" else "CHAOS_CPU_STRESS"

abbrev pub open_incident : Uuid → Uuid → Uuid → String → Message → World → World
open_incident incident_id ws instance_id kind message w = record w {
  incidents = incident incident_id ws instance_id (chaos_type kind) message ∷ w.incidents;
}

abbrev pub is_chaos : Uuid → Incident → Bool
is_chaos instance_id i = is_open instance_id i && starts_with i.incident_type "CHAOS_"

abbrev pub resolve_chaos_incidents : Time → Uuid → World → World
resolve_chaos_incidents now instance_id w = record w {
  incidents = update_where (is_chaos instance_id) (resolved now) w.incidents;
}
