-- ===== src/Examples/RateLimit.antt =====
-- The limiter of backend/src/utils/rate_limit.rs at concrete inputs.
use project_hermes.Base.{
  ◌≤◌, String, ◌≡◌, refl, true, false, List, [], ◌∷◌, arith, Time, count_where,
}
use project_hermes.Base.Assoc.{lookup, insert, retain}
use project_hermes.RateLimit.{new, sweep, check, check_all}
use project_hermes.RateLimit.Reference.{reference, IsOrdered, check_all-reference}
use project_hermes.RateLimit.Window.{allowed_times, is_within, check_all-allowed_times}

abbrev attempts : List (Time × String)
attempts = (1, "a") ∷ (2, "b") ∷ (3, "a") ∷ (4, "a") ∷ (12, "a") ∷ []

attempts_answers : check_all attempts (new 2 10) ≡ true ∷ true ∷ true ∷ false ∷ true ∷ []
unfolding check_all new check sweep lookup insert retain
attempts_answers = refl

attempts-IsOrdered : IsOrdered 0 attempts
attempts-IsOrdered = omega arith

check_all-reference_example : check_all attempts (new 2 10) ≡ reference 2 10 attempts []
check_all-reference_example = check_all-reference 2 10 0 attempts attempts-IsOrdered

check_all-allowed_times_example :
    count_where (is_within 3 10) (allowed_times "a" attempts (check_all attempts (new 2 10))) ≤ 2
check_all-allowed_times_example = check_all-allowed_times 2 10 3 0 "a" attempts attempts-IsOrdered
