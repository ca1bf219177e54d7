-- ===== src/Chaos/Restore.antt =====
-- The end of an experiment of backend/src/utils/chaos.rs.
use project_hermes.Base.{
  String, ◌≡◌, refl, inl, inr, true, false, List, [], ◌∷◌, arith, str_eq, str_eq_iff, Uuid, Time,
  ◌==◌, Bool-cases, count_where, any, update_where,
}
use project_hermes.Base.Int.{ℤ}
use project_hermes.Base.AppError.{ok}
use project_hermes.Health.{Incident, resolved}
use project_hermes.Limits.Memory.{same_id}
use project_hermes.Chaos.{Experiment, Deployment, World, is_deployment, scaled, is_chaos}
use project_hermes.Chaos.Start.{StartChaosRequest, Target, start_experiment}
use project_hermes.Chaos.Revert.{revert_experiment, is_running, ended}

no_chaos :
    (now : Time) (id : Uuid) (incidents : List Incident)
    → any (is_chaos id) (update_where (is_chaos id) (resolved now) incidents) ≡ false
no_chaos now id [] = refl
no_chaos now id (i ∷ is) = ground (arith, no_chaos now id is)

scaled_twice :
    (ws : Uuid) (container : String) (m n : ℤ) (rows : List Deployment)
    → update_where
        (is_deployment ws container)
        (scaled n)
        (update_where (is_deployment ws container) (scaled m) rows)
      ≡ update_where (is_deployment ws container) (scaled n) rows
scaled_twice ws container m n [] = refl
scaled_twice ws container m n (d ∷ ds) = elim (Bool-cases (is_deployment ws container d)) [
  | inl yes_d ↦ ground (arith, yes_d, scaled_twice ws container m n ds)
  | inr no_d ↦ rw (no_d, no_d, scaled_twice ws container m n ds) refl
]

none_running :
    (now : Time) (id : Uuid) (final_status : String) (rows : List Experiment)
    → str_eq final_status "running" ≡ false
    → count_where
        (is_running id)
        (update_where (λ (e : Experiment). e.id == id) (ended now final_status) rows)
      ≡ 0
none_running now id final_status [] h = refl
none_running now id final_status (e ∷ es) h =
    ground (arith, h, none_running now id final_status es h)

-- A scale-down experiment that Kubernetes and the INSERT accept, once reverted with Kubernetes
-- answering and with a final status other than 'running', leaves the deployment at the instance's
-- minimal replicas, the experiment not running, and no chaos incident of the instance open.
pub start_experiment-revert_experiment :
    (now later : Time) (incident_id id : Uuid) (target : Target) (req : StartChaosRequest)
    (final_status : String) (w : World)
    → str_eq req.kind "scale_down" ≡ true
    → target.get_client ≡ ok tt
    → target.scale_answer ≡ ok tt
    → str_eq final_status "running" ≡ false
    → let w' =
        revert_experiment true later id final_status
          (start_experiment now incident_id id target req (ok tt) w).0 in
      (w'.deployments
        ≡ update_where
            (is_deployment target.workspace_id target.container_name)
            (scaled target.replicas_min)
            w.deployments)
      × (count_where (is_running id) w'.experiments ≡ 0)
      × (any (is_chaos target.instance_id) w'.incidents ≡ false)
unfolding start_experiment revert_experiment
start_experiment-revert_experiment now later incident_id id target req final_status w kind client
      answer other =
    let not_kill : str_eq req.kind "pod_kill" ≡ false =
      rw ((str_eq_iff req.kind "scale_down").0 kind) refl in
    rw (client, kind, not_kill, answer, same_id id)
      (
        scaled_twice target.workspace_id target.container_name _ target.replicas_min w.deployments,
        ground (arith, other, none_running later id final_status w.experiments other),
        ground (arith, no_chaos later target.instance_id w.incidents, same_id target.instance_id),
      )
