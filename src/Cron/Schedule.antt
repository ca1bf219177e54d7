-- ===== src/Cron/Schedule.antt =====
-- The turns of the scheduler (backend/src/utils/cron.rs): a job that was due is not due again.
use project_hermes.Base.{
  Bool, subst, ◌<◌, String, ◌≡◌, refl, sym, ◌∙◌, ◌⊎◌, inl, inr, true, false, Option, none, some,
  List, [], ◌∷◌, arith, Uuid, Time, ◌==◌, if◌then◌else◌, ==_iff, Bool-cases, select, All,
}
use project_hermes.Cron.{
  CronJob, Schedules, has_come, is_due, moved, advance_to, advance_all, scheduler_turn,
}

-- The next time of a schedule lies after the time that it is asked for, as the cron crate says.
abbrev pub IsUpcoming : Schedules → Type 0
IsUpcoming parse =
    (schedule : String) (upcoming : Time → Option Time) (now t : Time)
    → parse schedule ≡ some upcoming
    → upcoming now ≡ some t
    → now < t

abbrev pub IsReadable : Schedules → CronJob → Type 0
IsReadable parse j = (upcoming : Time → Option Time) × (parse j.schedule ≡ some upcoming)

abbrev pub IsOver : Time → CronJob → Type 0
IsOver now j = is_due now j ≡ false

module _ (parse : Schedules) (later : IsUpcoming parse) (updates : Uuid → Bool) (now : Time) where
  not_come :
      (schedule : String) (upcoming : Time → Option Time)
      → parse schedule ≡ some upcoming
      → (o : Option Time) → upcoming now ≡ o
      → has_come now o ≡ false
  not_come schedule upcoming h none e = refl
  not_come schedule upcoming h (some t) e =
      let after = later schedule upcoming now t h e in ground (arith, after)

  moved-IsOver :
      (schedule : String) (upcoming : Time → Option Time) (j : CronJob)
      → parse schedule ≡ some upcoming
      → IsOver now (moved now (upcoming now) j)
  moved-IsOver schedule upcoming j h =
      let never = not_come schedule upcoming h (upcoming now) refl in
      elim (Bool-cases j.active) [ inl on ↦ rw (on, never) refl | inr off ↦ rw off refl ]

  -- The id is that of one of the jobs, whose schedule can be read.
  abbrev Listed : List CronJob → Uuid → Type 0
  Listed [] id = ⊥
  Listed (d ∷ due) id = (IsReadable parse d × (d.id ≡ id)) ⊎ Listed due id

  -- The job is not due, or its UPDATE was not answered.
  abbrev pub IsDone : CronJob → Type 0
  IsDone j = (updates j.id ≡ false) ⊎ IsOver now j

  abbrev IsPending : List CronJob → CronJob → Type 0
  IsPending due j = IsDone j ⊎ Listed due j.id

  advanced_row :
      (d : CronJob) (due : List CronJob) (upcoming : Time → Option Time) (j : CronJob)
      → parse d.schedule ≡ some upcoming
      → IsPending (d ∷ due) j
      → IsPending due (if j.id == d.id then moved now (upcoming now) j else j)
  advanced_row d due upcoming j h pending = elim (Bool-cases (j.id == d.id)) [
    | inl same ↦ rw same (inl (inr (moved-IsOver d.schedule upcoming j h)))
    | inr other ↦ rw other (elim pending [
      | inl over ↦ inl over
      | inr (inl (readable, this)) ↦ absurd (let same = (==_iff j.id d.id).1 (sym this) in cc)
      | inr (inr listed) ↦ inr listed
    ])
  ]

  advance_to-IsPending :
      (d : CronJob) (due : List CronJob) (b : Bool) (o : Option (Time → Option Time))
      (jobs : List CronJob)
      → updates d.id ≡ b
      → parse d.schedule ≡ o
      → All (IsPending (d ∷ due)) jobs
      → All (IsPending due) (advance_to parse updates now b o d.id jobs)
  advance_to-IsPending d due b none [] answered h all = tt
  advance_to-IsPending d due b none (j ∷ jobs) answered h all =
      (still all.0, advance_to-IsPending d due b none jobs answered h all.1)
    where
      still : IsPending (d ∷ due) j → IsPending due j
      still (inl over) = inl over
      still (inr (inl ((upcoming, found), this))) = absurd (let clash = sym h ∙ found in cc)
      still (inr (inr listed)) = inr listed
  advance_to-IsPending d due false (some upcoming) [] answered h all = tt
  advance_to-IsPending d due false (some upcoming) (j ∷ jobs) answered h all =
      (lost all.0, advance_to-IsPending d due false (some upcoming) jobs answered h all.1)
    where
      lost : IsPending (d ∷ due) j → IsPending due j
      lost (inl over) = inl over
      lost (inr (inl (readable, this))) =
          inl (inl (subst (λ (id : Uuid). updates id ≡ false) this answered))
      lost (inr (inr listed)) = inr listed
  advance_to-IsPending d due true (some upcoming) [] answered h all = tt
  advance_to-IsPending d due true (some upcoming) (j ∷ jobs) answered h all = (
    advanced_row d due upcoming j h all.0,
    advance_to-IsPending d due true (some upcoming) jobs answered h all.1,
  )

  none_pending : (jobs : List CronJob) → All (IsPending []) jobs → All IsDone jobs
  none_pending [] all = tt
  none_pending (j ∷ jobs) all = (over all.0, none_pending jobs all.1)
    where
      over : IsPending [] j → IsDone j
      over (inl h) = h
      over (inr h) = absurd h

  advance_all-IsDone :
      (due jobs : List CronJob)
      → All (IsPending due) jobs
      → All IsDone (advance_all parse updates now due jobs)
  advance_all-IsDone [] jobs all = none_pending jobs all
  advance_all-IsDone (d ∷ due) jobs all =
      advance_all-IsDone due _
        (advance_to-IsPending d due (updates d.id) (parse d.schedule) jobs refl refl all)

  selected-IsPending :
      (jobs due : List CronJob)
      → ((id : Uuid) → Listed (select (is_due now) jobs) id → Listed due id)
      → All (IsReadable parse) jobs
      → All (IsPending due) jobs
  selected-IsPending [] due f readable = tt
  selected-IsPending (j ∷ jobs) due f readable = elim (Bool-cases (is_due now j)) [
    | inl due_now ↦
        let f' = rw due_now at f in
        (
          inr (f' j.id (inl (readable.0, refl))),
          selected-IsPending jobs due (λ id listed. f' id (inr listed)) readable.1,
        )
    | inr over ↦ (inl (inr over), selected-IsPending jobs due (rw over at f) readable.1)
  ]

  -- After a turn of the scheduler whose query is answered no job in the table is due at the time of
  -- the turn but those whose UPDATE is not answered, whatever was due before, if every schedule in
  -- the table can be read and the next time of a schedule lies after the time it is asked for.
  pub scheduler_turn-IsDone :
      (jobs : List CronJob)
      → All (IsReadable parse) jobs
      → All IsDone (scheduler_turn parse updates now true jobs).0
  unfolding scheduler_turn
  scheduler_turn-IsDone jobs readable =
      advance_all-IsDone _ jobs
        (selected-IsPending jobs (select (is_due now) jobs) (λ id listed. listed) readable)
