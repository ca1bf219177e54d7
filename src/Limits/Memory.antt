-- ===== src/Limits/Memory.antt =====
-- What the memory check of backend/src/utils/limits.rs leaves.
use project_hermes.Base.{
  ◌≡◌, refl, Bool, true, false, none, some, arith, ◌^◌, ◌-◌, Uuid, ◌==◌, ==_iff, find,
}
use project_hermes.Base.Int.{ℤ, pos, ◌+ℤ◌, ltb_ℤ, ◌≤ℤ◌, wrap_i64, wrap_i64-le, int_laws}
use project_hermes.Base.AppError.{AppError, guard, Result, ok, ◌>>◌}
use project_hermes.Limits.{Workspace, Tables, used_memory, check_workspace_memory_limit}

-- The workspace and its positive limit, whose column is an INTEGER.
pub record HasLimit (t : Tables) (ws : Uuid) (w : Workspace) : Type 0 where
  pub found : find (λ v. v.id == ws) t.workspaces ≡ some w
  pub limited : ltb_ℤ (pos 0) w.max_memory_mb ≡ true
  pub column : w.max_memory_mb ≤ℤ pos (2 ^ 31 - 1)

-- What is requested is far enough from the end of i64.
abbrev pub IsSmall : ℤ → Type 0
IsSmall requested = requested ≤ℤ pos (2 ^ 62)

-- A check passes only with room, if the workspace is within its limit before.
pub check_room :
    (t : Tables) (ws : Uuid) (w : Workspace) (requested : ℤ)
    → HasLimit t ws w
    → IsSmall requested
    → used_memory t ws none ≤ℤ w.max_memory_mb
    → check_workspace_memory_limit t ws requested none ≡ ok tt
    → used_memory t ws none +ℤ requested ≤ℤ w.max_memory_mb
unfolding check_workspace_memory_limit
check_room t ws w requested h small fits e =
    let limited = h.limited in
    let column = h.column in
    let passed : wrap_i64 (used_memory t ws none +ℤ requested) ≤ℤ w.max_memory_mb =
      ground (arith, h.found, h.limited) in
    wrap_i64-le (used_memory t ws none +ℤ requested) w.max_memory_mb (omega int_laws) (ground arith)
      passed

pub guard_ok :
    {A : Type 0} (b : Bool) (e : AppError) (m : Result A) (y : A)
    → (guard b e >> m) ≡ ok y
    → (b ≡ true) × (m ≡ ok y)
guard_ok true e m y h = (refl, h)
guard_ok false e m y h = absurd (cc)

pub same_id : (ws : Uuid) → (ws == ws) ≡ true
same_id ws = (==_iff ws ws).1 refl
