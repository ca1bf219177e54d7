-- ===== src/Health.antt =====
-- backend/src/utils/health.rs: probes, the streak of failed ones, and the incidents of app instances.
-- A function is a handler's statements in their order, each of which runs; the events that it
-- broadcasts are left out. The Kubernetes answer, the readings of Prometheus and the texts that other
-- crates print are arguments. The streak is an integer that the model leaves unbounded.
pub mod Streak
pub mod Incidents
pub mod Recovery
pub mod Masked
use project_hermes.Base.{
  ℕ, zero, suc, ◌+◌, ◌-◌, ◌*◌, ◌/◌, ◌%◌, ◌^◌, ◌≤◌, ◌<◌, min, max, String, ◌≡◌, refl, sym, ap, ◌∙◌,
  subst, ◌≢◌, ◌↔◌, ◌⊎◌, inl, inr, Bool, true, false, ◌&&◌, ◌||◌, not, Option, none, some, List, [],
  ◌∷◌, ◌++◌, arith, str_eq, str_eq_iff, Uuid, Time, secs, ltb, leb, ◌==◌, if◌then◌else◌, ltb→lt,
  lt→ltb, leb→le, ==_iff, tests, Bool-cases, Option-cases, length, select, count_where, any, find,
  update_where, delete_where, All, map, All-append, All-if, All-update_where, All-delete_where,
  All-find,
}
use project_hermes.Base.Int.{ℤ, pos, negsuc, pos_part, ltb_ℤ}
use project_hermes.Base.AppError.{Piece, text, num, Message, literal}
use project_hermes.Limits.{AppStatus}

-- A row of app_instances, with the workspace of its app (the JOIN).
pub record Instance : Type 0 where
  pub id : Uuid
  pub workspace_id : Uuid
  pub memory_limit_mb : ℤ
  pub status : AppStatus
  pub consecutive_health_failures : ℕ

-- A row of app_incident_logs.
pub record Incident : Type 0 where
  pub id : Uuid
  pub workspace_id : Uuid
  pub app_instance_id : Uuid
  pub incident_type : String
  pub message : Message
  pub resolved_at : Option Time

-- A call of `dispatch_external_alert`.
pub record Alert : Type 0 where
  pub workspace_id : Uuid
  pub instance_id : Uuid
  pub incident_type : String
  pub message : Message

pub record World : Type 0 where
  pub instances : List Instance
  pub incidents : List Incident
  pub alerts : List Alert

abbrev pub is_unresolved : Option Time → Bool
is_unresolved none = true
is_unresolved (some t) = false

-- app_instance_id = $1 AND resolved_at IS NULL
abbrev pub is_open : Uuid → Incident → Bool
is_open id i = i.app_instance_id == id && is_unresolved i.resolved_at

abbrev pub is_row : Uuid → Instance → Bool
is_row id r = r.id == id

abbrev pub with_status : AppStatus → Instance → Instance
with_status status r = record r { status = status }

abbrev pub incident : Uuid → Uuid → Uuid → String → Message → Incident
incident incident_id workspace_id instance_id incident_type message = record {
  id = incident_id;
  workspace_id = workspace_id;
  app_instance_id = instance_id;
  incident_type = incident_type;
  message = message;
  resolved_at = none;
}

abbrev pub dispatch_external_alert : Uuid → Uuid → String → Message → List Alert → List Alert
dispatch_external_alert workspace_id instance_id incident_type message alerts =
    record {
      workspace_id = workspace_id;
      instance_id = instance_id;
      incident_type = incident_type;
      message = message;
    }
    ∷ alerts

unfoldable pub trigger_incident : Uuid → Uuid → Uuid → String → Message → World → World
trigger_incident incident_id workspace_id instance_id incident_type message w =
    if any (is_open instance_id) w.incidents then w else record {
      instances = update_where (is_row instance_id) (with_status AppStatus.failed) w.instances;
      incidents = incident incident_id workspace_id instance_id incident_type message ∷ w.incidents;
      alerts = dispatch_external_alert workspace_id instance_id incident_type message w.alerts;
    }

-- HERMES_HEALTH_FAILURE_THRESHOLD, once parsed, if it is positive, and 3.
abbrev pub failure_threshold : Option ℤ → ℕ
failure_threshold none = 3
failure_threshold (some n) = if ltb_ℤ (pos 0) n then pos_part n else 3

abbrev pub one_more : Instance → Instance
one_more r = record r { consecutive_health_failures = r.consecutive_health_failures + 1 }

-- What follows the UPDATE, on the row it returns; without a row it is an error, and the end.
abbrev pub counted : ℕ → (World → World) → World → Option Instance → World
counted threshold trigger w none = w
counted threshold trigger w (some r) =
    if leb threshold r.consecutive_health_failures then trigger w else w

unfoldable pub record_health_failure :
    Option ℤ → Uuid → Uuid → Uuid → String → Message → World → World
record_health_failure env incident_id workspace_id instance_id incident_type message w =
    let instances' = update_where (is_row instance_id) one_more w.instances in
    counted (failure_threshold env)
      (trigger_incident incident_id workspace_id instance_id incident_type message)
      (record w { instances = instances' }) (find (is_row instance_id) instances')

abbrev pub resolved : Time → Incident → Incident
resolved now i = record i { resolved_at = some now }

abbrev pub without_failures : Instance → Instance
without_failures r = record r { consecutive_health_failures = 0 }

-- The conditions `<> 0` and `!= 'running'` of the two UPDATEs of the instance leave the same rows.
unfoldable pub resolve_active_incidents : Time → Uuid → World → World
resolve_active_incidents now instance_id w = record w {
  instances =
      update_where (is_row instance_id) (with_status AppStatus.running)
        (update_where (is_row instance_id) without_failures w.instances);
  incidents = update_where (is_open instance_id) (resolved now) w.incidents;
}

-- What the HTTP client returns: a status code with its text, or an error.
pub data Response : Type 0 where
  answered : ℕ → String → Response
  unreachable : String → Response

abbrev pub unhealthy_message : String → Message
unhealthy_message status = text "App returned unhealthy status code: " ∷ text status ∷ []

abbrev pub unreachable_message : String → Message
unreachable_message error = text "Failed to reach application endpoint. Error: " ∷ text error ∷ []

-- The end of a probe of one instance; `ready` is that its Deployment has a ready replica.
unfoldable pub probe : Option ℤ → Time → Uuid → Uuid → Uuid → Bool → Response → World → World
probe env now incident_id workspace_id instance_id ready (answered code status) w =
    if ltb code 500
    then resolve_active_incidents now instance_id w
    else record_health_failure env incident_id workspace_id instance_id "UNHEALTHY_HTTP_CODE"
        (unhealthy_message status) w
probe env now incident_id workspace_id instance_id ready (unreachable error) w =
    if ready
    then resolve_active_incidents now instance_id w
    else record_health_failure env incident_id workspace_id instance_id "TIMEOUT_OR_DOWN"
        (unreachable_message error) w

-- A reading of Prometheus: whether the ratio is at the threshold or above, and its percentage.
pub record Reading : Type 0 where
  pub is_above : Bool
  pub percent : String

abbrev pub memory_message : String → ℤ → Message
memory_message percent limit =
    text "Memory usage at " ∷ text percent ∷ text "% of the " ∷ num limit ∷ text "MB limit." ∷ []

abbrev pub is_high_memory : Uuid → Incident → Bool
is_high_memory id i = is_open id i && str_eq i.incident_type "HIGH_MEMORY"

-- The turn of the metric worker for one of the rows it selected; the flag is that the EXISTS is
-- answered, which reads as no incident where it fails.
unfoldable pub metric_turn : Bool → Time → Uuid → Instance → Option Reading → World → World
metric_turn read now incident_id inst none w = w
metric_turn read now incident_id inst (some reading) w =
    let is_high = read && any (is_high_memory inst.id) w.incidents in
    let message = memory_message reading.percent inst.memory_limit_mb in
    if not (ltb_ℤ (pos 0) inst.memory_limit_mb)
    then w
    else if reading.is_above && not is_high
    then record w {
      incidents =
          incident incident_id inst.workspace_id inst.id "HIGH_MEMORY" message ∷ w.incidents;
      alerts = dispatch_external_alert inst.workspace_id inst.id "HIGH_MEMORY" message w.alerts;
    }
    else if not reading.is_above && is_high
    then record w { incidents = update_where (is_high_memory inst.id) (resolved now) w.incidents }
    else w
