-- ===== src/Health/Streak.antt =====
-- The streak of failed probes of backend/src/utils/health.rs, and when it raises an incident.
use project_hermes.Base.{
  ℕ, zero, suc, ◌+◌, ◌≤◌, String, ◌≡◌, refl, sym, ◌∙◌, inl, inr, Bool, true, false, Option, some,
  List, [], ◌∷◌, arith, Uuid, Time, leb, ◌==◌, if◌then◌else◌, Bool-cases, length, any, find,
  update_where,
}
use project_hermes.Base.Int.{ℤ}
use project_hermes.Base.AppError.{Message}
use project_hermes.Limits.{AppStatus}
use project_hermes.Health.{
  Instance, World, dispatch_external_alert, Response, answered, unreachable, is_open, is_row,
  with_status, incident, trigger_incident, failure_threshold, one_more, record_health_failure,
  probe, unhealthy_message, unreachable_message,
}

pub find-update_where :
    (id : Uuid) (f : Instance → Instance) (rows : List Instance) {r : Instance}
    → ((q : Instance) → (f q).id ≡ q.id)
    → find (is_row id) rows ≡ some r
    → find (is_row id) (update_where (is_row id) f rows) ≡ some (f r)
find-update_where id f [] keeps found = absurd (cc)
find-update_where id f (q ∷ rows) {r = r} keeps found = elim (Bool-cases (q.id == id)) [
  | inl same ↦
      let keep : ((f q).id == id) ≡ true = rw (keeps q) same in ground (arith, same, keep, found)
  | inr other ↦ rw (other, other) (find-update_where id f rows keeps (rw other at found))
]

pub one_le_threshold : (env : Option ℤ) → 1 ≤ failure_threshold env
one_le_threshold env = ground arith

-- A response that counts as a failure where the Deployment is not ready.
abbrev pub is_failure : Response → Bool
is_failure (answered code status) = leb 500 code
is_failure (unreachable error) = true

pub probe-record_health_failure :
    (env : Option ℤ) (now : Time) (incident_id ws id : Uuid) (response : Response) (w : World)
    → is_failure response ≡ true
    → (t : String) × (m : Message) × (probe env now incident_id ws id false response w
        ≡ record_health_failure env incident_id ws id t m w)
unfolding probe
probe-record_health_failure env now incident_id ws id (answered code status) w h =
    ("UNHEALTHY_HTTP_CODE", unhealthy_message status, ground arith)
probe-record_health_failure env now incident_id ws id (unreachable error) w h =
    ("TIMEOUT_OR_DOWN", unreachable_message error, refl)

abbrev pub counted_once : Uuid → World → World
counted_once id w = record w { instances = update_where (is_row id) one_more w.instances }

pub failure_counted :
    (env : Option ℤ) (incident_id ws id : Uuid) (t : String) (m : Message) (w : World)
    (r : Instance)
    → find (is_row id) w.instances ≡ some r
    → record_health_failure env incident_id ws id t m w ≡ (
        if leb (failure_threshold env) (r.consecutive_health_failures + 1)
        then trigger_incident incident_id ws id t m (counted_once id w)
        else counted_once id w)
unfolding record_health_failure
failure_counted env incident_id ws id t m w r found =
    rw (find-update_where id one_more w.instances {r = r} (λ q. refl) found) refl

pub trigger_again :
    (incident_id ws id : Uuid) (t : String) (m : Message) (w : World)
    → any (is_open id) w.incidents ≡ true
    → trigger_incident incident_id ws id t m w ≡ w
unfolding trigger_incident
trigger_again incident_id ws id t m w e = rw e refl

trigger_first :
    (incident_id ws id : Uuid) (t : String) (m : Message) (w : World)
    → any (is_open id) w.incidents ≡ false
    → trigger_incident incident_id ws id t m w ≡ record {
      instances = update_where (is_row id) (with_status AppStatus.failed) w.instances;
      incidents = incident incident_id ws id t m ∷ w.incidents;
      alerts = dispatch_external_alert ws id t m w.alerts;
    }
unfolding trigger_incident
trigger_first incident_id ws id t m w e = rw e refl

module _ (env : Option ℤ) (now : Time) (ids : ℕ → Uuid) (ws id : Uuid)
    (responses : ℕ → Response) where
  -- Failed probes one after the other.
  unfoldable pub failed_probes : ℕ → World → World
  failed_probes zero w = w
  failed_probes (suc n) w = probe env now (ids n) ws id false (responses n) (failed_probes n w)

  -- What `n` failed probes of a healthy instance make of it.
  pub record IsAfter (n : ℕ) (r : Instance) (w w' : World) : Type 0 where
    pub row :
        find (is_row id) w'.instances
        ≡ some (record r {
          status = if leb (failure_threshold env) n then AppStatus.failed else r.status;
          consecutive_health_failures = n;
        })
    pub is_down : any (is_open id) w'.incidents ≡ leb (failure_threshold env) n
    pub raised :
        length w'.incidents ≡ length w.incidents + (if leb (failure_threshold env) n then 1 else 0)
    pub alerted :
        length w'.alerts ≡ length w.alerts + (if leb (failure_threshold env) n then 1 else 0)

  step_down :
      (n : ℕ) (incident_id : Uuid) (t : String) (m : Message) (r : Instance) (w w' : World)
      → IsAfter n r w w'
      → leb (failure_threshold env) n ≡ true
      → IsAfter (suc n) r w (trigger_incident incident_id ws id t m (counted_once id w'))
  step_down n incident_id t m r w w' a le =
      let up : leb (failure_threshold env) (suc n) ≡ true = ground arith in
      rw (trigger_again incident_id ws id t m (counted_once id w') (a.is_down ∙ le)) (record {
        row =
            find-update_where id one_more w'.instances (λ q. refl) a.row
            ∙ rw (le, up) (ground arith);
        is_down = a.is_down ∙ rw (le, up) refl;
        raised = a.raised ∙ rw (le, up) refl;
        alerted = a.alerted ∙ rw (le, up) refl;
      })

  step_quiet :
      (n : ℕ) (r : Instance) (w w' : World)
      → IsAfter n r w w'
      → leb (failure_threshold env) (n + 1) ≡ false
      → IsAfter (suc n) r w (counted_once id w')
  step_quiet n r w w' a below =
      let low : leb (failure_threshold env) n ≡ false = ground arith in
      let next : leb (failure_threshold env) (suc n) ≡ false = ground arith in
      record {
        row =
            find-update_where id one_more w'.instances (λ q. refl) a.row
            ∙ rw (low, next) (ground arith);
        is_down = a.is_down ∙ rw (low, next) refl;
        raised = a.raised ∙ rw (low, next) refl;
        alerted = a.alerted ∙ rw (low, next) refl;
      }

  step_up :
      (n : ℕ) (incident_id : Uuid) (t : String) (m : Message) (r : Instance) (w w' : World)
      → IsAfter n r w w'
      → leb (failure_threshold env) n ≡ false
      → leb (failure_threshold env) (n + 1) ≡ true
      → IsAfter (suc n) r w (trigger_incident incident_id ws id t m (counted_once id w'))
  step_up n incident_id t m r w w' a low up =
      let next : leb (failure_threshold env) (suc n) ≡ true = ground arith in
      let counted = find-update_where id one_more w'.instances (λ q. refl) a.row in
      rw (trigger_first incident_id ws id t m (counted_once id w') (a.is_down ∙ low)) (record {
        row =
            find-update_where id (with_status AppStatus.failed) (counted_once id w').instances
              (λ q. refl) counted
            ∙ rw next (ground arith);
        is_down = rw next (ground arith);
        raised = rw next (ground (arith, a.raised, low));
        alerted = rw next (ground (arith, a.alerted, low));
      })

  step_IsAfter :
      (n : ℕ) (incident_id : Uuid) (t : String) (m : Message) (r : Instance) (w w' : World)
      → IsAfter n r w w'
      → IsAfter (suc n) r w (record_health_failure env incident_id ws id t m w')
  step_IsAfter n incident_id t m r w w' a =
      rw (failure_counted env incident_id ws id t m w' _ a.row)
        (elim (Bool-cases (leb (failure_threshold env) (n + 1))) [
          | inl up ↦ rw up (elim (Bool-cases (leb (failure_threshold env) n)) [
            | inl down ↦ step_down n incident_id t m r w w' a down
            | inr low ↦ step_up n incident_id t m r w w' a low up
          ])
          | inr below ↦ rw below (step_quiet n r w w' a below)
        ])

  -- After n failed probes, with the Deployment not ready, of an instance that had no failure
  -- counted and no open incident, its streak is n; below the threshold its status is as it was, no
  -- incident of it is open, and none was raised and no alert sent; from the threshold on it is
  -- marked failed, an incident of it is open, and one incident was raised and one alert sent.
  pub failed_probes-IsAfter :
      (n : ℕ) (r : Instance) (w : World)
      → find (is_row id) w.instances ≡ some r
      → r.consecutive_health_failures ≡ 0
      → any (is_open id) w.incidents ≡ false
      → ((k : ℕ) → is_failure (responses k) ≡ true)
      → IsAfter n r w (failed_probes n w)
  unfolding failed_probes
  failed_probes-IsAfter zero r w found fresh closed failing =
      let low : leb (failure_threshold env) 0 ≡ false = ground (arith, one_le_threshold env) in
      record {
        row = found ∙ rw (low, fresh) refl;
        is_down = closed ∙ sym low;
        raised = rw low (ground arith);
        alerted = rw low (ground arith);
      }
  failed_probes-IsAfter (suc n) r w found fresh closed failing =
      let (t, m, same) =
        probe-record_health_failure env now (ids n) ws id (responses n) (failed_probes n w)
          (failing n) in
      rw same (
        step_IsAfter n (ids n) t m r w (failed_probes n w)
          (failed_probes-IsAfter n r w found fresh closed failing))
