-- ===== src/Chaos/Start.antt =====
-- `start_experiment` of backend/src/utils/chaos.rs.
use project_hermes.Base.{
  ℕ, ◌+◌, String, Bool, Option, none, some, List, [], ◌∷◌, str_eq, Uuid, Time, secs, if◌then◌else◌,
  length,
}
use project_hermes.Base.Int.{ℤ, pos, pos_part, unwrap_or, clamp, max_ℤ}
use project_hermes.Base.AppError.{text, num, Message, literal, validation, Result, ok, err}
use project_hermes.Chaos.{Experiment, World, scale_deployment, open_incident, clamp_duration}

pub record StartChaosRequest : Type 0 where
  pub kind : String
  pub duration_sec : Option ℤ
  pub target_replicas : Option ℤ
  pub cpu_workers : Option ℤ
  pub target_all_pods : Option Bool

-- The instance, and the answers of Kubernetes: the client, the names of the running pods, the call of
-- `scale_deployment`, and the search for a pod.
pub record Target : Type 0 where
  pub workspace_id : Uuid
  pub instance_id : Uuid
  pub container_name : String
  pub replicas_min : ℤ
  pub get_client : Result (Unit {0})
  pub pods : List String
  pub scale_answer : Result (Unit {0})
  pub pod_name : Result String

abbrev pub experiment : Time → Uuid → Target → String → Experiment
experiment started_at id target kind = record {
  id = id;
  workspace_id = target.workspace_id;
  app_instance_id = target.instance_id;
  container_name = target.container_name;
  kind = kind;
  status = "running";
  original_replicas = none;
  message = [];
  started_at = started_at;
  revert_at = none;
  ended_at = none;
}

-- The fault is on, and the experiment is ready to be inserted.
abbrev pub Applied : Type 0
Applied = World × Result Experiment

abbrev pub first : List String → List String
first [] = []
first (n ∷ _) = n ∷ []

abbrev pub targets : Option Bool → List String → List String
targets none names = first names
targets (some all) names = if all then names else first names

abbrev pub killed_message : ℕ → Message
killed_message n = text "Killed " ∷ num (pos n) ∷ text " pod(s)" ∷ []

-- Deleting pods changes nothing here: their deployment starts others.
abbrev pub pod_kill : Time → Uuid → Target → Option Bool → List String → World → Applied
pod_kill now id target all [] w =
    (w, err (validation (literal "No running pods to kill for this instance.")))
pod_kill now id target all (pod ∷ pods) w = (
  w,
  ok (record (experiment now id target "pod_kill") {
    status = "completed";
    message = killed_message (length (targets all (pod ∷ pods)));
    ended_at = some now;
  }),
)

abbrev pub scale_message : ℤ → ℤ → ℤ → Message
scale_message replicas dur replicas_min =
    text "Scaled down to "
    ∷ num replicas
    ∷ text " replica(s) for "
    ∷ num dur
    ∷ text "s (restores to "
    ∷ num replicas_min
    ∷ text ")"
    ∷ []

abbrev pub scale_down : Time → Uuid → Uuid → Target → Result (Unit {0}) → ℤ → ℤ → World → Applied
scale_down now incident_id id target (err error) replicas dur w = (w, err error)
scale_down now incident_id id target (ok _) replicas dur w =
    let message = scale_message replicas dur target.replicas_min in
    (
      open_incident incident_id target.workspace_id target.instance_id "scale_down" message
          (scale_deployment target.workspace_id target.container_name replicas w),
      ok (record (experiment now id target "scale_down") {
        original_replicas = some target.replicas_min;
        message = message;
        revert_at = some (now + secs (pos_part dur));
      }),
    )

abbrev pub stress_message : ℤ → ℤ → Message
stress_message workers dur =
    text "CPU stress: "
    ∷ num workers
    ∷ text " worker(s) for "
    ∷ num dur
    ∷ text "s (best-effort)"
    ∷ []

abbrev pub cpu_stress : Time → Uuid → Uuid → Target → Result String → ℤ → ℤ → World → Applied
cpu_stress now incident_id id target (err error) workers dur w = (w, err error)
cpu_stress now incident_id id target (ok pod) workers dur w =
    let message = stress_message workers dur in
    (
      open_incident incident_id target.workspace_id target.instance_id "cpu_stress" message w,
      ok (record (experiment now id target "cpu_stress") {
        message = message;
        revert_at = some (now + secs (pos_part dur));
      }),
    )

-- The `match` on the kind.
abbrev pub apply_fault : Time → Uuid → Uuid → Target → StartChaosRequest → World → Applied
apply_fault now incident_id id target req w =
    if str_eq req.kind "pod_kill"
    then pod_kill now id target req.target_all_pods target.pods w
    else if str_eq req.kind "scale_down"
    then scale_down now incident_id id target target.scale_answer
        (max_ℤ (unwrap_or (pos 0) req.target_replicas) (pos 0)) (clamp_duration req.duration_sec) w
    else if str_eq req.kind "cpu_stress"
    then cpu_stress now incident_id id target target.pod_name
        (clamp (pos 1) (pos 8) (unwrap_or (pos 1) req.cpu_workers))
        (clamp_duration req.duration_sec) w
    else (w, err (validation (text "Unknown chaos kind '" ∷ text req.kind ∷ text "'." ∷ [])))

-- The INSERT of the experiment, which `insert` says fails or not.
abbrev pub inserted : Result (Unit {0}) → Applied → World × Result Experiment
inserted insert (w, err error) = (w, err error)
inserted (err error) (w, ok e) = (w, err error)
inserted (ok _) (w, ok e) = (record w { experiments = e ∷ w.experiments }, ok e)

abbrev pub with_client :
    Result (Unit {0}) → World → World × Result Experiment → World × Result Experiment
with_client (err error) w started = (w, err error)
with_client (ok _) w started = started

unfoldable pub start_experiment :
    Time
    → Uuid
    → Uuid
    → Target
    → StartChaosRequest
    → Result (Unit {0})
    → World
    → World × Result Experiment
start_experiment now incident_id id target req insert w =
    with_client target.get_client w (inserted insert (apply_fault now incident_id id target req w))
