-- ===== src/Health/Recovery.antt =====
-- What a healthy probe of backend/src/utils/health.rs makes of an instance.
use project_hermes.Base.{
  ◌≡◌, refl, Bool, true, false, Option, some, List, [], ◌∷◌, arith, Uuid, Time, ltb, any, find,
  update_where,
}
use project_hermes.Base.Int.{ℤ}
use project_hermes.Limits.{AppStatus}
use project_hermes.Health.{
  Instance, Incident, World, Response, answered, unreachable, is_open, is_row, with_status,
  resolve_active_incidents, without_failures, resolved, probe,
}
use project_hermes.Health.Streak.{find-update_where}

resolved_none :
    (now : Time) (id : Uuid) (incidents : List Incident)
    → any (is_open id) (update_where (is_open id) (resolved now) incidents) ≡ false
resolved_none now id [] = refl
resolved_none now id (i ∷ is) = ground (arith, resolved_none now id is)

-- A response that counts as healthy, or a Deployment that is ready where there was none.
abbrev pub is_healthy : Bool → Response → Bool
is_healthy ready (answered code status) = ltb code 500
is_healthy ready (unreachable error) = ready

pub probe-resolve_active_incidents :
    (env : Option ℤ) (now : Time) (incident_id ws id : Uuid) (ready : Bool) (response : Response)
    (w : World)
    → is_healthy ready response ≡ true
    → probe env now incident_id ws id ready response w ≡ resolve_active_incidents now id w
unfolding probe
probe-resolve_active_incidents env now incident_id ws id ready (answered code status) w h =
    rw h refl
probe-resolve_active_incidents env now incident_id ws id ready (unreachable error) w h = rw h refl

-- After a healthy probe of an instance it is marked running, whatever its status was, its streak is
-- 0, no incident of it is open, and no alert is sent.
pub probe-recovers :
    (env : Option ℤ) (now : Time) (incident_id ws id : Uuid) (ready : Bool) (response : Response)
    (w : World) (r : Instance)
    → is_healthy ready response ≡ true
    → find (is_row id) w.instances ≡ some r
    → let w' = probe env now incident_id ws id ready response w in
      (find (is_row id) w'.instances
        ≡ some (record r { status = AppStatus.running; consecutive_health_failures = 0 }))
      × (any (is_open id) w'.incidents ≡ false)
      × (w'.alerts ≡ w.alerts)
unfolding resolve_active_incidents
probe-recovers env now incident_id ws id ready response w r h found =
    rw (probe-resolve_active_incidents env now incident_id ws id ready response w h) (
      find-update_where id (with_status AppStatus.running)
          (update_where (is_row id) without_failures w.instances) (λ q. refl)
          (find-update_where id without_failures w.instances (λ q. refl) found),
      resolved_none now id w.incidents,
      refl,
    )
