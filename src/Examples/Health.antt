-- ===== src/Examples/Health.antt =====
-- Probes and incidents of backend/src/utils/health.rs at concrete inputs.
use project_hermes.Base.{
  ℕ, zero, suc, ◌+◌, ◌≡◌, refl, true, false, none, some, List, [], ◌∷◌, arith, Uuid, any, find, map,
}
use project_hermes.Base.Int.{pos}
use project_hermes.Base.AppError.{literal}
use project_hermes.Limits.{AppStatus}
use project_hermes.Health.{
  Instance, World, Response, answered, unreachable, is_open, is_row, incident, probe,
  record_health_failure, trigger_incident,
}
use project_hermes.Health.Streak.{is_failure, failed_probes, IsAfter, failed_probes-IsAfter}
use project_hermes.Health.Incidents.{Event, probed, measured, run, IsSingle, run-IsSingle}
use project_hermes.Health.Recovery.{probe-recovers}
use project_hermes.Health.Masked.{failed_probes-open}

abbrev web : Instance
web = record {
  id = 5;
  workspace_id = 1;
  memory_limit_mb = pos 512;
  status = AppStatus.running;
  consecutive_health_failures = 0;
}

abbrev calm : World
calm = record { instances = web ∷ []; incidents = []; alerts = [] }

abbrev ids : ℕ → Uuid
ids n = 100 + n

abbrev responses : ℕ → Response
responses zero = answered 503 "503 Service Unavailable"
responses (suc n) = unreachable "connection refused"

responses-fail : (k : ℕ) → is_failure (responses k) ≡ true
responses-fail zero = refl
responses-fail (suc k) = refl

three_failures :
    map (λ (r : Instance). r.status) (failed_probes none 9 ids 1 5 responses 3 calm).instances
    ≡ AppStatus.failed ∷ []
unfolding failed_probes probe record_health_failure trigger_incident
three_failures = refl

failed_probes-IsAfter_example :
    IsAfter none 9 ids 1 5 responses 4 web calm (failed_probes none 9 ids 1 5 responses 4 calm)
failed_probes-IsAfter_example =
    failed_probes-IsAfter none 9 ids 1 5 responses 4 web calm refl refl refl responses-fail

abbrev down : Instance
down = record web { status = AppStatus.failed; consecutive_health_failures = 4 }

abbrev alarmed : World
alarmed = record {
  instances = down ∷ [];
  incidents = incident 7 1 5 "HIGH_MEMORY" (literal "Memory usage at 95% of the 512MB limit.") ∷ [];
  alerts = [];
}

probe-recovers_example :
    let w' = probe none 9 8 1 5 false (answered 404 "404 Not Found") alarmed in
    (find (is_row 5) w'.instances
      ≡ some (record down { status = AppStatus.running; consecutive_health_failures = 0 }))
    × (any (is_open 5) w'.incidents ≡ false)
    × (w'.alerts ≡ [])
probe-recovers_example =
    probe-recovers none 9 8 1 5 false (answered 404 "404 Not Found") alarmed down refl refl

abbrev events : List Event
events =
    measured true 1 10 web (some (record { is_above = true; percent = "95" }))
    ∷ probed 2 11 1 5 false (unreachable "timeout")
    ∷ measured true 3 12 web (some (record { is_above = true; percent = "96" }))
    ∷ probed 4 13 1 5 true (unreachable "timeout")
    ∷ []

run-IsSingle_example : IsSingle 5 (run (some (pos 1)) events calm)
run-IsSingle_example =
    run-IsSingle (some (pos 1)) 5 events calm (refl, (tt, (refl, (tt, tt))))
      (record { health = omega arith; memory = omega arith })

failed_probes-open_example :
    let w' = failed_probes none 9 ids 1 5 responses 6 alarmed in
    (find (is_row 5) w'.instances ≡ some (record down { consecutive_health_failures = 4 + 6 }))
    × (w'.incidents ≡ alarmed.incidents)
    × (w'.alerts ≡ [])
failed_probes-open_example =
    failed_probes-open none 9 ids 1 5 responses 6 down alarmed refl refl responses-fail
