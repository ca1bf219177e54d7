-- ===== src/Chaos/Worker.antt =====
-- A tick of the worker of backend/src/utils/chaos.rs.
use project_hermes.Base.{
  ◌≡◌, refl, sym, ◌∙◌, subst, inl, inr, Bool, true, false, Option, none, some, List, [], ◌∷◌, arith,
  str_eq, Uuid, Time, ◌==◌, if◌then◌else◌, Bool-cases, select, count_where, any, find, update_where,
  All, map,
}
use project_hermes.Base.Int.{ℤ}
use project_hermes.Limits.Memory.{same_id}
use project_hermes.Chaos.{Experiment, World}
use project_hermes.Chaos.Revert.{
  revert_experiment, revert_all, chaos_tick, is_running, is_due, ended, revert_found, restore,
}

-- Every due experiment is among `ids`.
abbrev IsCovered : Time → List Uuid → List Experiment → Type 0
IsCovered now ids rows = All (λ e. is_due now e ≡ true → any (λ i. e.id == i) ids ≡ true) rows

covered_head :
    (now : Time) (id : Uuid) (ids : List Uuid) (e : Experiment) (es : List Experiment)
    → find (is_running id) (e ∷ es) ≡ none
    → is_due now e ≡ true
    → any (λ i. e.id == i) (id ∷ ids) ≡ true
    → any (λ i. e.id == i) ids ≡ true
covered_head now id ids e es none_left due covered = elim (Bool-cases (e.id == id)) [
  | inl same ↦ absurd (ground arith)
  | inr other ↦ rw other at covered
]

not_running :
    (now : Time) (id : Uuid) (ids : List Uuid) (rows : List Experiment)
    → find (is_running id) rows ≡ none
    → IsCovered now (id ∷ ids) rows
    → IsCovered now ids rows
not_running now id ids [] none_left covered = tt
not_running now id ids (e ∷ es) none_left covered = (
  λ due. covered_head now id ids e es none_left due (covered.0 due),
  not_running now id ids es (ground arith) covered.1,
)

ended-IsCovered :
    (now : Time) (id : Uuid) (ids : List Uuid) (rows : List Experiment)
    → IsCovered now (id ∷ ids) rows
    → IsCovered now ids (update_where (λ (e : Experiment). e.id == id) (ended now "completed") rows)
ended-IsCovered now id ids [] covered = tt
ended-IsCovered now id ids (e ∷ es) covered = (
  elim (Bool-cases (e.id == id)) [
    | inl same ↦ rw same (λ due. absurd (cc))
    | inr other ↦ rw other (λ due. rw other at (covered.0 due))
  ],
  ended-IsCovered now id ids es covered.1,
)

restored_experiments :
    (answers is_scale : Bool) (e : Experiment) (o : Option ℤ) (w : World)
    → (if is_scale then restore answers e o w else w).experiments ≡ w.experiments
restored_experiments answers false e o w = refl
restored_experiments answers true e none w = refl
restored_experiments true true e (some replicas) w = refl
restored_experiments false true e (some replicas) w = refl

resolved_experiments :
    (answers : Bool) (now : Time) (ids : List Uuid) (id : Uuid) (w : World) (o : Option Experiment)
    → find (is_running id) w.experiments ≡ o
    → IsCovered now (id ∷ ids) w.experiments
    → IsCovered now ids (revert_found answers now id "completed" w o).experiments
resolved_experiments answers now ids id w none e covered =
    not_running now id ids w.experiments e covered
resolved_experiments answers now ids id w (some x) e covered =
    rw (restored_experiments answers (str_eq x.kind "scale_down") x x.original_replicas w)
      (ended-IsCovered now id ids w.experiments covered)

revert_all-IsCovered :
    (answers : Bool) (now : Time) (ids : List Uuid) (w : World)
    → IsCovered now ids w.experiments
    → IsCovered now [] (revert_all answers now ids w).experiments
unfolding revert_all revert_experiment
revert_all-IsCovered answers now [] w covered = covered
revert_all-IsCovered answers now (id ∷ ids) w covered =
    revert_all-IsCovered answers now ids _
      (resolved_experiments answers now ids id w _ refl covered)

more-IsCovered :
    (now : Time) (id : Uuid) (ids : List Uuid) (rows : List Experiment)
    → IsCovered now ids rows
    → IsCovered now (id ∷ ids) rows
more-IsCovered now id ids [] covered = tt
more-IsCovered now id ids (e ∷ es) covered =
    (λ due. ground (arith, covered.0 due), more-IsCovered now id ids es covered.1)

due-IsCovered :
    (now : Time) (rows : List Experiment)
    → IsCovered now (map (λ (e : Experiment). e.id) (select (is_due now) rows)) rows
due-IsCovered now [] = tt
due-IsCovered now (e ∷ es) =
    let ids_of : List Experiment → List Uuid = map (λ (e : Experiment). e.id) in
    elim (Bool-cases (is_due now e)) [
      | inl due ↦
          let chosen : select (is_due now) (e ∷ es) ≡ e ∷ select (is_due now) es = rw due refl in
          subst (λ rows. IsCovered now (ids_of rows) (e ∷ es)) (sym chosen)
            (
              λ _. ground (arith, same_id e.id),
              more-IsCovered now e.id (ids_of (select (is_due now) es)) es (due-IsCovered now es),
            )
      | inr idle ↦
          let skipped : select (is_due now) (e ∷ es) ≡ select (is_due now) es = rw idle refl in
          subst (λ rows. IsCovered now (ids_of rows) (e ∷ es)) (sym skipped)
            (λ due. absurd (cc), due-IsCovered now es)
    ]

none_due :
    (now : Time) (rows : List Experiment)
    → IsCovered now [] rows
    → count_where (is_due now) rows ≡ 0
none_due now [] covered = refl
none_due now (e ∷ es) covered = elim (Bool-cases (is_due now e)) [
  | inl due ↦ absurd (let h = covered.0 due in cc)
  | inr idle ↦ rw idle (none_due now es covered.1)
]

-- After a tick of the worker no experiment is running and due.
chaos_tick-is_due :
    (answers : Bool) (now : Time) (w : World)
    → count_where (is_due now) (chaos_tick answers now w).experiments ≡ 0
unfolding chaos_tick
chaos_tick-is_due answers now w =
    none_due now _ (revert_all-IsCovered answers now _ w (due-IsCovered now w.experiments))

unanswered :
    (is_scale : Bool) (e : Experiment) (o : Option ℤ) (w : World)
    → (if is_scale then restore false e o w else w).deployments ≡ w.deployments
unanswered false e o w = refl
unanswered true e none w = refl
unanswered true e (some replicas) w = refl

revert_unanswered :
    (now : Time) (id : Uuid) (w : World) (o : Option Experiment)
    → (revert_found false now id "completed" w o).deployments ≡ w.deployments
revert_unanswered now id w none = refl
revert_unanswered now id w (some e) =
    unanswered (str_eq e.kind "scale_down") e e.original_replicas w

all_unanswered :
    (now : Time) (ids : List Uuid) (w : World)
    → (revert_all false now ids w).deployments ≡ w.deployments
unfolding revert_all revert_experiment
all_unanswered now [] w = refl
all_unanswered now (id ∷ ids) w =
    all_unanswered now ids _ ∙ revert_unanswered now id w (find (is_running id) w.experiments)

-- A tick of the worker during which Kubernetes does not answer scales no deployment, and after it
-- no experiment is running and due.
pub chaos_tick-deployments :
    (now : Time) (w : World)
    → ((chaos_tick false now w).deployments ≡ w.deployments)
      × (count_where (is_due now) (chaos_tick false now w).experiments ≡ 0)
unfolding chaos_tick
chaos_tick-deployments now w = (all_unanswered now _ w, chaos_tick-is_due false now w)
