-- ===== src/RateLimit/Window.antt =====
-- How many attempts the limiter of backend/src/utils/rate_limit.rs lets through.
use project_hermes.Base.{
  ℕ, ◌+◌, ◌≤◌, String, ◌≡◌, subst, inl, inr, Bool, true, ◌&&◌, List, [], ◌∷◌, ◌++◌, arith, str_eq,
  str_eq_iff, Time, ltb, leb, if◌then◌else◌, Bool-cases, count_where, All, All-append,
}
use mathlib.Core.List.{append-nil, append_assoc}
use project_hermes.RateLimit.{new, is_fresh, check_all}
use project_hermes.RateLimit.Reference.{
  attempts_of, allows, reference, IsOrdered, attempts_own, attempts_other, check_all-reference,
}

-- The times of the attempts of a key that were allowed.
abbrev pub allowed_times : String → List (Time × String) → List Bool → List Time
allowed_times key [] answers = []
allowed_times key (e ∷ es) [] = []
allowed_times key ((now, k) ∷ es) (allowed ∷ answers) =
    let rest = allowed_times key es answers in if allowed && str_eq k key then now ∷ rest else rest

abbrev pub is_within : Time → Time → Time → Bool
is_within start window t = leb start t && ltb t (start + window)

count_where-append {ℓ} :
    {A : Type ℓ} (p : A → Bool) (xs ys : List A)
    → count_where p (xs ++ ys) ≡ count_where p xs + count_where p ys
count_where-append p [] ys = omega arith
count_where-append p (x ∷ xs) ys = ground (arith, count_where-append p xs ys)

-- Of times that are not after `now`, those in a window with `now` in it are fresh.
within_fresh :
    (start window now : Time) (times : List Time)
    → All (λ t. t ≤ now) times
    → is_within start window now ≡ true
    → count_where (is_within start window) times ≤ count_where (is_fresh window now) times
within_fresh start window now [] past h = omega arith
within_fresh start window now (t ∷ ts) past h =
    ground (arith, past.0, within_fresh start window now ts past.1 h)

later-All :
    (last now : Time) (times : List Time)
    → last ≤ now
    → All (λ t. t ≤ last) times
    → All (λ t. t ≤ now) times
later-All last now [] order past = tt
later-All last now (t ∷ ts) order past =
    ((let p = past.0 in omega arith), later-All last now ts order past.1)

own_room :
    (max_attempts : ℕ) (window start now : Time) (key : String) (history : List (Time × String))
    → All (λ t. t ≤ now) (attempts_of key history)
    → allows max_attempts window now key history ≡ true
    → count_where (is_within start window) (attempts_of key history) ≤ max_attempts
    → count_where (is_within start window) (attempts_of key history ++ now ∷ []) ≤ max_attempts
own_room max_attempts window start now key history past ok room =
    let times = attempts_of key history in
    rw (count_where-append (is_within start window) times (now ∷ []))
      (elim (Bool-cases (is_within start window now)) [
        | inl inside ↦ rw inside (ground (arith, within_fresh start window now times past inside))
        | inr outside ↦ rw outside (omega arith)
      ])

-- `times` and what the reference limiter goes on to allow, with the history that shows `times`.
bound_from :
    (max_attempts : ℕ) (window start last : Time) (key : String) (es history : List (Time × String))
    → All (λ t. t ≤ last) (attempts_of key history)
    → count_where (is_within start window) (attempts_of key history) ≤ max_attempts
    → IsOrdered last es
    → count_where
        (is_within start window)
        (attempts_of key history ++ allowed_times key es (reference max_attempts window es history))
      ≤ max_attempts
unfolding reference
bound_from max_attempts window start last key [] history past room ordered = rw append-nil room
bound_from max_attempts window start last key ((now, k) ∷ es) history past room ordered =
    elim (Bool-cases (allows max_attempts window now k history)) [
      | inr denied ↦
          rw denied (bound_from max_attempts window start now key es history earlier room ordered.1)
      | inl ok ↦ elim (Bool-cases (str_eq k key)) [
        | inr other ↦
            let same_times = attempts_other now k key history other in
            rw (ok, other)
              (rw same_times at (
                bound_from max_attempts window start now key es (history ++ (now, k) ∷ [])
                  (rw same_times earlier) (rw same_times room) ordered.1))
        | inl same ↦
            let more = attempts_own now k key history same in
            let own =
              subst (λ (j : String). allows max_attempts window now j history ≡ true)
                ((str_eq_iff k key).0 same) ok in
            let ih : count_where (is_within start window) (
                  (attempts_of key history ++ now ∷ [])
                  ++ allowed_times key es
                      (reference max_attempts window es (history ++ (now, k) ∷ [])))
                ≤ max_attempts =
              rw more at (
                bound_from max_attempts window start now key es (history ++ (now, k) ∷ [])
                  (rw more (All-append (λ t. t ≤ now) _ (now ∷ []) earlier (omega arith, tt)))
                  (rw more (own_room max_attempts window start now key history earlier own room))
                  ordered.1) in
            rw (ok, same) (rw append_assoc at ih)
      ]
    ]
  where
    earlier : All (λ t. t ≤ now) (attempts_of key history)
    earlier = later-All last now (attempts_of key history) ordered.0 past

-- On attempts in the order of time, no window of the limiter's length, wherever it starts, holds
-- more than max_attempts allowed attempts of one key.
pub check_all-allowed_times :
    (max_attempts : ℕ) (window start now : Time) (key : String) (es : List (Time × String))
    → IsOrdered now es
    → count_where
        (is_within start window)
        (allowed_times key es (check_all es (new max_attempts window)))
      ≤ max_attempts
check_all-allowed_times max_attempts window start now key es ordered =
    rw (check_all-reference max_attempts window now es ordered)
      (bound_from max_attempts window start now key es [] tt (omega arith) ordered)
