-- ===== src/Health/Incidents.antt =====
-- The incidents of backend/src/utils/health.rs over the probes and the turns of the metric worker.
use project_hermes.Base.{
  All, sym, ℕ, ◌≤◌, String, ◌≡◌, refl, subst, inl, inr, Bool, true, false, ◌&&◌, not, Option, none,
  some, List, [], ◌∷◌, arith, str_eq, Uuid, Time, ltb, leb, ◌==◌, ==_iff, Bool-cases, count_where,
  any, find, update_where,
}
use project_hermes.Base.Int.{ℤ, pos, ltb_ℤ}
use project_hermes.Base.AppError.{Message}
use project_hermes.Health.{
  Instance, Incident, Alert, World, Response, Reading, answered, unreachable, is_open, is_row,
  incident, trigger_incident, counted, one_more, failure_threshold, record_health_failure,
  resolve_active_incidents, resolved, probe, is_high_memory, metric_turn, dispatch_external_alert,
  memory_message,
}

-- An open incident of the HTTP probe.
abbrev pub is_health_incident : Uuid → Incident → Bool
is_health_incident id i = is_open id i && not (str_eq i.incident_type "HIGH_MEMORY")

pub data Event : Type 0 where
  probed : Time → Uuid → Uuid → Uuid → Bool → Response → Event
  measured : Bool → Time → Uuid → Instance → Option Reading → Event

abbrev pub step : Option ℤ → Event → World → World
step env (probed now incident_id ws id ready response) w =
    probe env now incident_id ws id ready response w
step env (measured read now incident_id inst reading) w =
    metric_turn read now incident_id inst reading w

pub run : Option ℤ → List Event → World → World
run env [] w = w
run env (e ∷ es) w = run env es (step env e w)

-- The query of a turn of the metric worker is answered.
abbrev pub IsAnswered : Event → Type 0
IsAnswered (probed now incident_id ws id ready response) = Unit
IsAnswered (measured read now incident_id inst reading) = read ≡ true

pub record IsSingle (id : Uuid) (w : World) : Type 0 where
  pub health : count_where (is_health_incident id) w.incidents ≤ 1
  pub memory : count_where (is_high_memory id) w.incidents ≤ 1

none_health :
    (id : Uuid) (incidents : List Incident)
    → any (is_open id) incidents ≡ false
    → (count_where (is_health_incident id) incidents ≡ 0)
      × (count_where (is_high_memory id) incidents ≡ 0)
none_health id [] h = (refl, refl)
none_health id (i ∷ is) h = ground (arith, none_health id is)

none_memory :
    (id : Uuid) (incidents : List Incident)
    → any (is_high_memory id) incidents ≡ false
    → count_where (is_high_memory id) incidents ≡ 0
none_memory id [] h = refl
none_memory id (i ∷ is) h = ground (arith, none_memory id is)

-- Resolving incidents never adds an open one.
fewer_open :
    (now : Time) (p : Incident → Bool) (id : Uuid) (incidents : List Incident)
    → (count_where (is_health_incident id) (update_where p (resolved now) incidents)
        ≤ count_where (is_health_incident id) incidents)
      × (count_where (is_high_memory id) (update_where p (resolved now) incidents)
          ≤ count_where (is_high_memory id) incidents)
fewer_open now p id [] = (omega arith, omega arith)
fewer_open now p id (i ∷ is) = ground (arith, fewer_open now p id is)

trigger-IsSingle :
    (incident_id ws iid id : Uuid) (t : String) (m : Message) (w : World)
    → str_eq t "HIGH_MEMORY" ≡ false
    → IsSingle id w
    → IsSingle id (trigger_incident incident_id ws iid t m w)
unfolding trigger_incident
trigger-IsSingle incident_id ws iid id t m w other s =
    elim (Bool-cases (any (is_open iid) w.incidents)) [
      | inl open_one ↦ rw open_one s
      | inr closed ↦ rw closed (elim (Bool-cases (iid == id)) [
        | inl same ↦
            let e : any (is_open id) w.incidents ≡ false =
              subst (λ k. any (is_open k) w.incidents ≡ false) ((==_iff iid id).0 same) closed in
            record {
              health = rw (same, other) (ground (arith, none_health id w.incidents e));
              memory = rw (same, other) s.memory;
            }
        | inr foreign ↦ record { health = rw foreign s.health; memory = rw foreign s.memory }
      ])
    ]

counted-IsSingle :
    (threshold : ℕ) (incident_id ws iid id : Uuid) (t : String) (m : Message) (w : World)
    (o : Option Instance)
    → str_eq t "HIGH_MEMORY" ≡ false
    → IsSingle id w
    → IsSingle id (counted threshold (trigger_incident incident_id ws iid t m) w o)
counted-IsSingle threshold incident_id ws iid id t m w none other s = s
counted-IsSingle threshold incident_id ws iid id t m w (some r) other s =
    elim (Bool-cases (leb threshold r.consecutive_health_failures)) [
      | inl loud ↦ rw loud (trigger-IsSingle incident_id ws iid id t m w other s)
      | inr quiet ↦ rw quiet s
    ]

failure-IsSingle :
    (env : Option ℤ) (incident_id ws iid id : Uuid) (t : String) (m : Message) (w : World)
    → str_eq t "HIGH_MEMORY" ≡ false
    → IsSingle id w
    → IsSingle id (record_health_failure env incident_id ws iid t m w)
unfolding record_health_failure
failure-IsSingle env incident_id ws iid id t m w other s =
    let rows = update_where (is_row iid) one_more w.instances in
    counted-IsSingle (failure_threshold env) incident_id ws iid id t m
      (record w { instances = rows }) (find (is_row iid) rows) other
      (record { health = s.health; memory = s.memory })

resolve-IsSingle :
    (now : Time) (iid id : Uuid) (w : World)
    → IsSingle id w
    → IsSingle id (resolve_active_incidents now iid w)
unfolding resolve_active_incidents
resolve-IsSingle now iid id w s =
    let (health, memory) = fewer_open now (is_open iid) id w.incidents in
    record { health = omega (arith, health, s.health); memory = omega (arith, memory, s.memory) }

probe-IsSingle :
    (env : Option ℤ) (now : Time) (incident_id ws iid id : Uuid) (ready : Bool)
    (response : Response) (w : World)
    → IsSingle id w
    → IsSingle id (probe env now incident_id ws iid ready response w)
unfolding probe
probe-IsSingle env now incident_id ws iid id ready (answered code status) w s =
    elim (Bool-cases (ltb code 500)) [
      | inl up ↦ rw up (resolve-IsSingle now iid id w s)
      | inr down ↦ rw down (failure-IsSingle env incident_id ws iid id _ _ w refl s)
    ]
probe-IsSingle env now incident_id ws iid id true (unreachable error) w s =
    resolve-IsSingle now iid id w s
probe-IsSingle env now incident_id ws iid id false (unreachable error) w s =
    failure-IsSingle env incident_id ws iid id _ _ w refl s

raise-IsSingle :
    (incident_id ws iid id : Uuid) (m : Message) (w : World) (alerts : List Alert)
    → any (is_high_memory iid) w.incidents ≡ false
    → IsSingle id w
    → IsSingle id (record w {
      incidents = incident incident_id ws iid "HIGH_MEMORY" m ∷ w.incidents;
      alerts = alerts;
    })
raise-IsSingle incident_id ws iid id m w alerts low s = elim (Bool-cases (iid == id)) [
  | inl same ↦
      let e : any (is_high_memory id) w.incidents ≡ false =
        subst (λ k. any (is_high_memory k) w.incidents ≡ false) ((==_iff iid id).0 same) low in
      record {
        health = rw same s.health;
        memory = rw same (ground (arith, none_memory id w.incidents e));
      }
  | inr foreign ↦ record { health = rw foreign s.health; memory = rw foreign s.memory }
]

metric_turn-IsSingle :
    (now : Time) (incident_id id : Uuid) (inst : Instance) (o : Option Reading) (w : World)
    → IsSingle id w
    → IsSingle id (metric_turn true now incident_id inst o w)
unfolding metric_turn
metric_turn-IsSingle now incident_id id inst none w s = s
metric_turn-IsSingle now incident_id id inst (some reading) w s =
    let message = memory_message reading.percent inst.memory_limit_mb in
    let (health, memory) = fewer_open now (is_high_memory inst.id) id w.incidents in
    elim (Bool-cases (ltb_ℤ (pos 0) inst.memory_limit_mb)) [
      | inr unlimited ↦ rw unlimited s
      | inl limited ↦ rw limited (elim (Bool-cases reading.is_above) [
        | inl above ↦ rw above (elim (Bool-cases (any (is_high_memory inst.id) w.incidents)) [
          | inl high ↦ rw high s
          | inr low ↦ rw low (
              raise-IsSingle incident_id inst.workspace_id inst.id id message w
                (dispatch_external_alert inst.workspace_id inst.id "HIGH_MEMORY" message w.alerts)
                low s)
        ])
        | inr below ↦ rw below (elim (Bool-cases (any (is_high_memory inst.id) w.incidents)) [
          | inl high ↦ rw high (record {
            health = omega (arith, health, s.health);
            memory = omega (arith, memory, s.memory);
          })
          | inr low ↦ rw low s
        ])
      ])
    ]

-- Over any sequence of probes and turns of the metric worker, an instance has at most one open
-- incident of the probes and at most one of memory, if it had so at the start and the query for an
-- open incident of memory is answered in each turn.
pub run-IsSingle :
    (env : Option ℤ) (id : Uuid) (es : List Event) (w : World)
    → All IsAnswered es
    → IsSingle id w
    → IsSingle id (run env es w)
unfolding run
run-IsSingle env id [] w answers s = s
run-IsSingle env id (probed now iid ws inst ready response ∷ es) w answers s =
    run-IsSingle env id es _ answers.1 (probe-IsSingle env now iid ws inst id ready response w s)
run-IsSingle env id (measured read now iid inst reading ∷ es) w answers s =
    run-IsSingle env id es _ answers.1 (
      subst (λ b. IsSingle id (metric_turn b now iid inst reading w)) (sym answers.0)
        (metric_turn-IsSingle now iid id inst reading w s))
