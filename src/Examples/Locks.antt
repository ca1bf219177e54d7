-- ===== src/Examples/Locks.antt =====
-- The limits and locks of backend/src/utils/locks.rs at concrete inputs.
use project_hermes.Base.{
  zero, suc, any, false, ℕ, ◌*◌, ◌≤◌, max, String, ◌≡◌, refl, ◌≢◌, true, false, none, List, [], ◌∷◌,
  arith, Time, secs, length, count_where,
}
use project_hermes.Base.Assoc.{lookup, insert}
use project_hermes.Locks.{
  held_by_other, bump, check_rate_limit, Lock, try_advisory_lock, probe, acquire_build_slot_round,
}
use project_hermes.Locks.FixedWindow.{check_calls, check_calls-allowed_times}
use project_hermes.Locks.Slots.{is_slot, acquire, Reach, start, next, Reach-length}
use project_hermes.Locks.Progress.{every_answer, acquire_build_slot_round-ne-none}
use project_hermes.RateLimit.Window.{allowed_times, is_within}

abbrev calls : List (Time × String)
calls =
    (secs 9, "login:a")
    ∷ (secs 9, "login:a")
    ∷ (secs 9, "login:a")
    ∷ (secs 20, "login:a")
    ∷ (secs 20, "login:a")
    ∷ []

calls_answers : check_calls 2 10 calls [] ≡ true ∷ true ∷ false ∷ true ∷ true ∷ []
unfolding check_calls check_rate_limit bump lookup insert
calls_answers = refl

check_calls-allowed_times_example :
    count_where
      (is_within (secs 9) (secs 10))
      (allowed_times "login:a" calls (check_calls 2 10 calls []))
    ≤ 2 * 2
check_calls-allowed_times_example =
    check_calls-allowed_times 2 10 (secs 9) 0 "login:a" calls (omega arith) (omega arith)

abbrev lock : ℕ → ℕ → Lock
lock slot session = record { slot = slot; session = session }

abbrev two_held : List Lock
two_held = lock 1 8 ∷ lock 0 7 ∷ []

-- The locks when the queries of a round run, of which the session 7 drops its slot 0 in between.
abbrev meanwhile : ℕ → List Lock
meanwhile zero = two_held
meanwhile (suc query) = lock 1 8 ∷ []

abbrev first_free : ℕ → List Lock
first_free query = []

abbrev first_taken : ℕ → List Lock
first_taken query = lock 0 7 ∷ []

two_held_reached : Reach 2 two_held
unfolding acquire_build_slot_round probe try_advisory_lock
two_held_reached =
    next (next (start [] refl) (acquire every_answer first_free 7 0 (lock 0 7 ∷ []) refl refl refl))
      (acquire every_answer first_taken 8 1 two_held refl refl refl)

Reach-length_example :
    (length two_held ≤ max 2 1) × ((slot : ℕ) → count_where (is_slot slot) two_held ≤ 1)
Reach-length_example = Reach-length two_held_reached

meanwhile_untaken :
    (query slot : ℕ)
    → any (held_by_other slot 9) two_held ≡ false
    → any (held_by_other slot 9) (meanwhile query) ≡ false
meanwhile_untaken zero slot h = h
meanwhile_untaken (suc query) slot h = ground (arith, h)

acquire_build_slot_round-ne-none_example :
    acquire_build_slot_round every_answer meanwhile 3 9 ≢ none
acquire_build_slot_round-ne-none_example =
    acquire_build_slot_round-ne-none 3 9 two_held meanwhile (omega arith) meanwhile_untaken

abbrev uuid_a : List ℕ
uuid_a = 1 ∷ 2 ∷ 3 ∷ 4 ∷ 5 ∷ 6 ∷ 7 ∷ 8 ∷ 9 ∷ 10 ∷ 11 ∷ 12 ∷ 13 ∷ 14 ∷ 15 ∷ 16 ∷ []

abbrev uuid_b : List ℕ
uuid_b = 1 ∷ 2 ∷ 3 ∷ 4 ∷ 5 ∷ 6 ∷ 7 ∷ 255 ∷ 9 ∷ 10 ∷ 11 ∷ 12 ∷ 13 ∷ 14 ∷ 15 ∷ 16 ∷ []
