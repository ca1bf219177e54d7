-- ===== src/Chaos/Revert.antt =====
-- `revert_experiment`, `has_active_experiment` and the worker of backend/src/utils/chaos.rs.
use project_hermes.Base.{
  String, Bool, false, ◌&&◌, Option, none, some, List, [], ◌∷◌, str_eq, Uuid, Time, leb, ◌==◌,
  if◌then◌else◌, select, any, find, update_where, map,
}
use project_hermes.Base.Int.{ℤ}
use project_hermes.Chaos.{Experiment, World, scale_deployment, resolve_chaos_incidents}

abbrev pub is_running : Uuid → Experiment → Bool
is_running id e = e.id == id && str_eq e.status "running"

abbrev pub restore : Bool → Experiment → Option ℤ → World → World
restore answers e none w = w
restore answers e (some replicas) w =
    if answers then scale_deployment e.workspace_id e.container_name replicas w else w

abbrev pub ended : Time → String → Experiment → Experiment
ended now final_status e = record e { status = final_status; ended_at = some now }

abbrev pub close : Time → Uuid → String → World → World
close now id final_status w = record w {
  experiments =
      update_where (λ (e : Experiment). e.id == id) (ended now final_status) w.experiments;
}

abbrev pub revert_found : Bool → Time → Uuid → String → World → Option Experiment → World
revert_found answers now id final_status w none = w
revert_found answers now id final_status w (some e) =
    resolve_chaos_incidents now e.app_instance_id (
      close now id final_status
        (if str_eq e.kind "scale_down" then restore answers e e.original_replicas w else w))

-- `answers` is that Kubernetes gives a client and scales the deployment.
unfoldable pub revert_experiment : Bool → Time → Uuid → String → World → World
revert_experiment answers now id final_status w =
    revert_found answers now id final_status w (find (is_running id) w.experiments)

abbrev pub is_reached : Time → Option Time → Bool
is_reached now none = false
is_reached now (some t) = leb t now

abbrev pub is_due : Time → Experiment → Bool
is_due now e = str_eq e.status "running" && is_reached now e.revert_at

unfoldable pub has_active_experiment : Uuid → World → Bool
has_active_experiment instance_id w =
    any (λ (e : Experiment). e.app_instance_id == instance_id && str_eq e.status "running")
      w.experiments

unfoldable pub revert_all : Bool → Time → List Uuid → World → World
revert_all answers now [] w = w
revert_all answers now (id ∷ ids) w =
    revert_all answers now ids (revert_experiment answers now id "completed" w)

-- One tick of the worker on the leader.
unfoldable pub chaos_tick : Bool → Time → World → World
chaos_tick answers now w =
    revert_all answers now (map (λ (e : Experiment). e.id) (select (is_due now) w.experiments)) w
