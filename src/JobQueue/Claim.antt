-- ===== src/JobQueue/Claim.antt =====
-- What `claim_next` of backend/src/utils/job_queue.rs picks, and what it leaves alone.
use project_hermes.Base.{
  ℕ, ◌≤◌, String, ◌≡◌, refl, Bool, true, false, none, some, [], ◌∷◌, arith, ◌==◌, leb, subst,
  Option-cases, if◌then◌else◌, All, update_where, Uuid, Time, Bool-cases, inl, inr,
}
use mathlib.Core.List.{Memᴰ}
use project_hermes.JobQueue.{Job, Jobs, oldest, claim_next, is_runnable, claimed}

module _ {J : Type 0} where
  -- `j` is a row of the table that satisfies `p`, and no such row is older.
  pub record IsOldest (p : Job J → Bool) (jobs : Jobs J) (j : Job J) : Type 0 where
    pub member : Memᴰ j jobs
    pub satisfies : p j ≡ true
    pub first : All (λ k. p k ≡ true → j.created_at ≤ k.created_at) jobs

  weaken :
      (p : Job J → Bool) (a b : ℕ) (jobs : Jobs J)
      → a ≤ b
      → All (λ k. p k ≡ true → b ≤ k.created_at) jobs
      → All (λ k. p k ≡ true → a ≤ k.created_at) jobs
  weaken p a b [] le h = tt
  weaken p a b (k ∷ ks) le h = ((λ e. omega (arith, h.0 e)), weaken p a b ks le h.1)

  vacuous :
      (p : Job J → Bool) (a : ℕ) (jobs : Jobs J)
      → All (λ k. p k ≡ false) jobs
      → All (λ k. p k ≡ true → a ≤ k.created_at) jobs
  vacuous p a [] h = tt
  vacuous p a (k ∷ ks) h = ((λ e. ground arith), vacuous p a ks h.1)

  pub oldest-none :
      (p : Job J → Bool) (jobs : Jobs J) → oldest p jobs ≡ none → All (λ k. p k ≡ false) jobs
  unfolding oldest
  oldest-none p [] h = tt
  oldest-none p (k ∷ ks) h = (ground arith, oldest-none p ks (ground arith))

  keep_older :
      (p : Job J → Bool) (k m : Job J) (ks : Jobs J) {j : Job J}
      → p k ≡ true
      → IsOldest p ks m
      → (if leb k.created_at m.created_at then some k else some m) ≡ some j
      → IsOldest p (k ∷ ks) j
  keep_older p k m ks t ih h = elim (Bool-cases (leb k.created_at m.created_at)) [
    | inl le ↦ subst (IsOldest p (k ∷ ks)) (ground arith) (record {
      member = Memᴰ.head refl;
      satisfies = t;
      first = ((λ _. omega arith), weaken p k.created_at m.created_at ks (ground arith) ih.first);
    })
    | inr gt ↦ subst (IsOldest p (k ∷ ks)) (ground arith) (record {
      member = Memᴰ.tail ih.member;
      satisfies = ih.satisfies;
      first = ((λ _. ground arith), ih.first);
    })
  ]

  pub oldest-IsOldest :
      (p : Job J → Bool) (jobs : Jobs J) {j : Job J} → oldest p jobs ≡ some j → IsOldest p jobs j
  unfolding oldest
  oldest-IsOldest p [] h = cc
  oldest-IsOldest p (k ∷ ks) {j = j} h = elim (Bool-cases (p k)) [
    | inl t ↦ elim (Option-cases (oldest p ks)) [
      | inl none_left ↦ record {
        member = Memᴰ.head (ground arith);
        satisfies = ground arith;
        first = ((λ _. ground arith), vacuous p _ ks (oldest-none p ks none_left));
      }
      | inr (m, found) ↦ keep_older p k m ks t (oldest-IsOldest p ks found) (ground arith)
    ]
    | inr f ↦
        let ih : IsOldest p ks j = oldest-IsOldest p ks (ground arith) in
        record {
          member = Memᴰ.tail ih.member;
          satisfies = ih.satisfies;
          first = ((λ e. absurd (cc)), ih.first);
        }
  ]

  -- A claim with a result took the oldest runnable row, returns it marked as claimed, and stores
  -- that in its place.
  pub claim_next-some :
      (row_locked : Uuid → Bool) (now : Time) (worker : String) (jobs : Jobs J) {c : Job J}
      → (claim_next row_locked now worker jobs).0 ≡ some c
      → (j : Job J) × IsOldest (is_runnable row_locked now) jobs j
        × (c ≡ claimed now worker j)
        × ((claim_next row_locked now worker jobs).1
            ≡ update_where (λ k. k.id == j.id) (claimed now worker) jobs)
  unfolding claim_next
  claim_next-some row_locked now worker jobs h =
      elim (Option-cases (oldest (is_runnable row_locked now) jobs)) [
        | inl none_left ↦ absurd (ground arith)
        | inr (j, found) ↦ (j, oldest-IsOldest _ jobs found, ground arith, ground arith)
      ]

  -- A claim without a result means that no row is runnable, and changes nothing.
  pub claim_next-none :
      (row_locked : Uuid → Bool) (now : Time) (worker : String) (jobs : Jobs J)
      → (claim_next row_locked now worker jobs).0 ≡ none
      → All (λ k. is_runnable row_locked now k ≡ false) jobs
        × ((claim_next row_locked now worker jobs).1 ≡ jobs)
  unfolding claim_next
  claim_next-none row_locked now worker jobs h =
      elim (Option-cases (oldest (is_runnable row_locked now) jobs)) [
        | inl none_left ↦ (oldest-none _ jobs none_left, ground arith)
        | inr (j, found) ↦ absurd (ground arith)
      ]
