-- ===== src/Examples/Leader.antt =====
-- The election of backend/src/utils/leader.rs at concrete inputs.
use project_hermes.Base.{ℕ, ◌≡◌, refl, none, some, List, [], ◌∷◌, arith, Uuid, Time, secs}
use project_hermes.Leader.{Delivery, answered, take_or_renew, tick, start, ticks}
use project_hermes.Leader.Election.{ticks-leader}

-- Replica 1 wins, replica 2 does not, and takes over once the lease has run out.
abbrev timeline : List (Time × Uuid × Delivery)
timeline = (secs 1, 1, answered) ∷ (secs 5, 2, answered) ∷ (secs 32, 2, answered) ∷ []

takes_over : (ticks timeline (start none)).is_leader 2 ≡ some (secs 32)
unfolding ticks tick take_or_renew start
takes_over = refl

ticks-leader_example : ◌≡◌ {A = ℕ} 2 2
ticks-leader_example =
    ticks-leader none 0 (secs 40) timeline 2 2 (secs 32) (secs 32) (omega arith) takes_over
      takes_over (omega arith) (omega arith)
