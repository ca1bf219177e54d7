-- ===== src/Examples/Chaos.antt =====
-- Experiments of backend/src/utils/chaos.rs at concrete inputs.
use project_hermes.Base.{
  ◌≡◌, refl, true, false, none, some, [], ◌∷◌, secs, count_where, any, update_where, map,
}
use project_hermes.Base.Int.{pos}
use project_hermes.Base.AppError.{ok}
use project_hermes.Chaos.{Experiment, Deployment, World, is_deployment, scaled, is_chaos}
use project_hermes.Chaos.Start.{StartChaosRequest, Target, start_experiment}
use project_hermes.Chaos.Revert.{
  revert_experiment, revert_all, chaos_tick, is_running, is_due, has_active_experiment,
}
use project_hermes.Chaos.Restore.{start_experiment-revert_experiment}
use project_hermes.Chaos.Worker.{chaos_tick-deployments}

abbrev web : Deployment
web = record { workspace_id = 1; container_name = "web"; replicas = pos 2 }

abbrev calm : World
calm = record { experiments = []; incidents = []; deployments = web ∷ [] }

abbrev target : Target
target = record {
  workspace_id = 1;
  instance_id = 5;
  container_name = "web";
  replicas_min = pos 2;
  get_client = ok tt;
  pods = "web-1" ∷ "web-2" ∷ [];
  scale_answer = ok tt;
  pod_name = ok "web-1";
}

abbrev request : StartChaosRequest
request = record {
  kind = "scale_down";
  duration_sec = some (pos 1);
  target_replicas = none;
  cpu_workers = none;
  target_all_pods = none;
}

abbrev started : World
started = (start_experiment (secs 9) 20 21 target request (ok tt) calm).0

started_test :
    (map (λ (d : Deployment). d.replicas) started.deployments ≡ pos 0 ∷ [])
    × (map (λ (e : Experiment). e.revert_at) started.experiments ≡ some (secs 14) ∷ [])
    × (has_active_experiment 5 started ≡ true)
unfolding start_experiment has_active_experiment
started_test = (refl, refl, refl)

tick_test :
    (map (λ (d : Deployment). d.replicas) (chaos_tick true (secs 14) started).deployments
      ≡ pos 2 ∷ [])
    × (has_active_experiment 5 (chaos_tick true (secs 13) started) ≡ true)
unfolding start_experiment has_active_experiment chaos_tick revert_all revert_experiment
tick_test = (refl, refl)

start_experiment-revert_experiment_example :
    let w' = revert_experiment true (secs 30) 21 "cancelled" started in
    (w'.deployments ≡ update_where (is_deployment 1 "web") (scaled (pos 2)) (web ∷ []))
    × (count_where (is_running 21) w'.experiments ≡ 0)
    × (any (is_chaos 5) w'.incidents ≡ false)
start_experiment-revert_experiment_example =
    start_experiment-revert_experiment (secs 9) (secs 30) 20 21 target request "cancelled" calm refl
      refl refl refl

chaos_tick-deployments_example :
    ((chaos_tick false (secs 20) started).deployments ≡ started.deployments)
    × (count_where (is_due (secs 20)) (chaos_tick false (secs 20) started).experiments ≡ 0)
chaos_tick-deployments_example = chaos_tick-deployments (secs 20) started
