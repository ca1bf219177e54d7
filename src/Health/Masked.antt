-- ===== src/Health/Masked.antt =====
-- Failed probes of backend/src/utils/health.rs while an incident of any kind is open.
use project_hermes.Base.{
  ℕ, zero, suc, ◌+◌, String, ◌≡◌, refl, ◌∙◌, inl, inr, true, Option, some, arith, Uuid, Time, leb,
  Bool-cases, any, find,
}
use project_hermes.Base.Int.{ℤ}
use project_hermes.Base.AppError.{Message}
use project_hermes.Health.{
  Instance, World, Response, is_open, is_row, failure_threshold, one_more, record_health_failure,
}
use project_hermes.Health.Streak.{
  find-update_where, is_failure, failed_probes, probe-record_health_failure, failure_counted,
  trigger_again, counted_once,
}

failure_masked :
    (env : Option ℤ) (incident_id ws id : Uuid) (t : String) (m : Message) (w : World)
    (r : Instance)
    → find (is_row id) w.instances ≡ some r
    → any (is_open id) w.incidents ≡ true
    → record_health_failure env incident_id ws id t m w ≡ counted_once id w
failure_masked env incident_id ws id t m w r found masked =
    failure_counted env incident_id ws id t m w r found
    ∙ rw (trigger_again incident_id ws id t m (counted_once id w) masked)
        (elim (Bool-cases (leb (failure_threshold env) (r.consecutive_health_failures + 1))) [
          | inl loud ↦ rw loud refl
          | inr quiet ↦ rw quiet refl
        ])

-- While an incident of an instance is open, of whatever type, failed probes with the Deployment not
-- ready only count: however many they are, the status stays, and no incident is raised and no alert
-- sent.
pub failed_probes-open :
    (env : Option ℤ) (now : Time) (ids : ℕ → Uuid) (ws id : Uuid) (responses : ℕ → Response) (n : ℕ)
    (r : Instance) (w : World)
    → find (is_row id) w.instances ≡ some r
    → any (is_open id) w.incidents ≡ true
    → ((k : ℕ) → is_failure (responses k) ≡ true)
    → let w' = failed_probes env now ids ws id responses n w in
      (find (is_row id) w'.instances
        ≡ some (record r { consecutive_health_failures = r.consecutive_health_failures + n }))
      × (w'.incidents ≡ w.incidents)
      × (w'.alerts ≡ w.alerts)
unfolding failed_probes
failed_probes-open env now ids ws id responses zero r w found masked failing =
    (found ∙ ground arith, refl, refl)
failed_probes-open env now ids ws id responses (suc n) r w found masked failing =
    let w' = failed_probes env now ids ws id responses n w in
    let (row, incidents, alerts) =
      failed_probes-open env now ids ws id responses n r w found masked failing in
    let (t, m, same) =
      probe-record_health_failure env now (ids n) ws id (responses n) w' (failing n) in
    let still : any (is_open id) w'.incidents ≡ true = rw incidents masked in
    let counted = same ∙ failure_masked env (ids n) ws id t m w' _ row still in
    rw counted
      (find-update_where id one_more w'.instances (λ q. refl) row ∙ ground arith, incidents, alerts)
