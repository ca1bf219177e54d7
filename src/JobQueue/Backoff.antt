-- ===== src/JobQueue/Backoff.antt =====
-- The retry delay of backend/src/utils/job_queue.rs (`backoff_secs`).
use project_hermes.Base.{ℕ, ◌*◌, ◌^◌, ◌≤◌, ◌≡◌, arith, ltb, if◌then◌else◌}
use project_hermes.Base.Int.{ℤ, pos_part}
use native.Mathlib.Nat.{pow-le-pow_right}
use native.Mathlib.Decide.{dec_lt}
use project_hermes.JobQueue.{backoff_secs}

two_pow_mono : {m n : ℕ} → m ≤ n → 2 ^ m ≤ 2 ^ n
two_pow_mono h = pow-le-pow_right {n = 2} (omega arith) h

-- The saturating computation of the delay is ten seconds times two to the attempts made, for the
-- first five, and then five minutes.
pub backoff_secs_exact :
    (attempts : ℤ)
    → backoff_secs attempts
      ≡ (if ltb (pos_part attempts) 5 then 10 * 2 ^ pos_part attempts else 300)
unfolding backoff_secs
backoff_secs_exact attempts =
    let n = pos_part attempts in
    elim (dec_lt n 5) [
      | yes h ↦ ground (arith, two_pow_mono {m = n} {n = 4} (omega arith))
      | no h ↦ ground (arith, two_pow_mono {m = 5} {n = n} (omega arith))
    ]
