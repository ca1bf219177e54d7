-- ===== src/Examples/Concurrent.antt =====
-- Two creations in one workspace, interleaved (`create_database` under the lock of
-- backend/src/utils/locks.rs).
use project_hermes.Base.{
  Bool, true, not, ◌^◌, ℕ, ◌≡◌, refl, subst, inl, inr, none, some, List, [], ◌∷◌, arith, Uuid, ◌==◌,
  ==_iff, Bool-cases,
}
use project_hermes.Base.Int.{wrap_i64, ltb_ℤ, pos, ◌+ℤ◌, ◌*ℤ◌, ◌≤ℤ◌}
use project_hermes.Base.AppError.{ok}
use project_hermes.Limits.{
  Workspace, used_memory, used_cpu, check_workspace_memory_limit, check_workspace_cpu_limit,
}
use project_hermes.Limits.Memory.{IsSmall, HasLimit}
use project_hermes.Limits.Concurrent.{
  Request, requested, database, checks, write, Phase, idle, holding, checked, dropped, set_phase,
  System, acquire, check, commit, Reach, start, next, IsOwner,
}
use project_hermes.Limits.Concurrent.Ready.{Fits}
use project_hermes.Limits.Concurrent.Quota.{Reach-used_memory}
use project_hermes.Limits.Concurrent.Exclusive.{Reach-exclusive}
use project_hermes.Locks.{workspace_key, from_le_bytes}
use project_hermes.Base.Int.{to_i64}
use project_hermes.Locks.WorkspaceLock.{WorkspaceLock, acquire_workspace_lock, waiting, granted}
use project_hermes.Examples.Limits.{workspace, tables, after_database}

abbrev as_bytes : Uuid → List ℕ
as_bytes ws = ws ∷ 0 ∷ 0 ∷ 0 ∷ 0 ∷ 0 ∷ 0 ∷ 0 ∷ 0 ∷ 0 ∷ 0 ∷ 0 ∷ 0 ∷ 0 ∷ 0 ∷ 0 ∷ []

abbrev owner : Uuid → Uuid
owner app_id = 1

tables-IsOwner : IsOwner as_bytes owner tables
tables-IsOwner ws app_id h = ground arith

the_workspace : (ws : Uuid) (w : Workspace) → HasLimit tables ws w → (1 ≡ ws) × (workspace ≡ w)
the_workspace ws w h = elim (Bool-cases (1 == ws)) [
  | inl same ↦ let e : some workspace ≡ some w = rw same at h.found in ((==_iff 1 ws).0 same, cc)
  | inr apart ↦ absurd (let e = rw apart at h.found in cc)
]

-- 500 MB of 1000 MB.
tables-Fits : Fits as_bytes owner tables
unfolding used_memory ◌+ℤ◌ ◌*ℤ◌
tables-Fits ws w h =
    let (same, whole) = the_workspace ws w h in
    subst (λ (u : Uuid). used_memory tables u none ≤ℤ w.max_memory_mb) same
      (subst (λ (v : Workspace). used_memory tables 1 none ≤ℤ v.max_memory_mb) whole (omega arith))

abbrev request : Request
request = database 9 (pos 500) (pos 0)

abbrev lock : WorkspaceLock
lock = record { conn = 7; key = pos 1 }

abbrev no_one : ℕ → Phase
no_one i = idle

abbrev is_holding : ℕ → Phase
is_holding = set_phase no_one 7 (holding 1 request lock)

abbrev is_checked : ℕ → Phase
is_checked = set_phase is_holding 7 (checked 1 request lock)

abbrev is_done : ℕ → Phase
is_done = set_phase is_checked 7 (dropped 1 lock)

taken : acquire_workspace_lock as_bytes (inr 7) none 1 [] ≡ granted lock (lock ∷ [])
unfolding acquire_workspace_lock workspace_key from_le_bytes to_i64
taken = refl

-- The connection 8 has to wait.
second_waits : acquire_workspace_lock as_bytes (inr 8) none 1 (lock ∷ []) ≡ waiting
unfolding acquire_workspace_lock workspace_key from_le_bytes to_i64
second_waits = refl

passed : checks tables 1 request ≡ ok tt
unfolding checks check_workspace_memory_limit check_workspace_cpu_limit used_memory used_cpu ◌+ℤ◌
    ◌*ℤ◌ wrap_i64
passed = refl

-- Requests of at most 2^62 MB.
abbrev sends : Request → Bool
sends r = not (ltb_ℤ (pos (2 ^ 62)) (requested r))

sends-IsSmall : (r : Request) → sends r ≡ true → IsSmall (requested r)
sends-IsSmall r h = elim (Bool-cases (ltb_ℤ (pos (2 ^ 62)) (requested r))) [
  | inl large ↦ absurd (let h' = rw large at h in cc)
  | inr small ↦ ground (arith, small)
]

abbrev created : System
created = record { tables = after_database; locks = lock ∷ []; phase = is_done }

created-Reach : Reach as_bytes owner sends tables created
unfolding write
created-Reach =
    next (next (next start (acquire 7 1 request refl refl taken)) (check 7 refl passed))
      (commit 7 refl)

Reach-used_memory_example : Fits as_bytes owner after_database
Reach-used_memory_example =
    Reach-used_memory as_bytes owner sends sends-IsSmall tables-IsOwner tables-Fits created-Reach

Reach-exclusive_example : ◌≡◌ {A = ℕ} 7 7
Reach-exclusive_example = Reach-exclusive as_bytes owner sends created-Reach 1 7 7 refl refl
