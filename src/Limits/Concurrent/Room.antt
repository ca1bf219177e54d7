-- ===== src/Limits/Concurrent/Room.antt =====
-- What the row that a creation inserts adds to the memory of a workspace, and that the checks of
-- backend/src/utils/limits.rs leave room for it.
use project_hermes.Base.{
  ◌+◌, ◌*◌, true, zero, suc, ◌≡◌, refl, inl, inr, Bool, false, Option, none, ◌∷◌, arith, Uuid, ◌==◌,
  if◌then◌else◌, Bool-cases,
}
use project_hermes.Base.Int.{
  ℤ, pos, negsuc, sub_ℕ, wrap_i64, wrap_i64-pos, ◌+ℤ◌, ◌*ℤ◌, ◌≤ℤ◌, unwrap_or, ltb_ℤ, int_laws,
}
use project_hermes.Base.AppError.{Result, ok, err, ◌>>◌}
use project_hermes.Limits.{
  AppInstance, Workspace, Tables, owns_app, used_memory, check_workspace_memory_limit,
}
use project_hermes.Limits.Requests.{if_positive, range_max}
use project_hermes.Limits.Memory.{HasLimit, IsSmall, check_room, guard_ok}
use project_hermes.Limits.Concurrent.{Request, branch, database, function, checks, write, requested}

-- Whether the new row counts for the workspace `v`.
abbrev pub counts : Tables → Uuid → Uuid → Request → Bool
counts t ws v (branch app_id id memory cpu replicas_min replicas_max) = owns_app t.apps v app_id
counts t ws v (database id memory cpu) = ws == v
counts t ws v (function id name_is_valid memory) = ws == v

pub app_skipped :
    (t : Tables) (v : Uuid) (r : AppInstance)
    → owns_app t.apps v r.app_id ≡ false
    → used_memory (record t { app_instances = r ∷ t.app_instances }) v none ≡ used_memory t v none
unfolding used_memory
app_skipped t v r foreign = rw foreign refl

pub write-used_memory :
    (t : Tables) (ws v : Uuid) (r : Request)
    → used_memory (write t ws r) v none
      ≡ used_memory t v none +ℤ (if counts t ws v r then requested r else pos 0)
unfolding write used_memory
write-used_memory t ws v (branch app_id id memory cpu replicas_min replicas_max) =
    elim (Bool-cases (owns_app t.apps v app_id)) [
      | inl mine ↦ rw mine (omega int_laws)
      | inr foreign ↦ rw foreign (omega int_laws)
    ]
write-used_memory t ws v (database id memory cpu) = elim (Bool-cases (ws == v)) [
  | inl mine ↦ rw mine (omega int_laws)
  | inr foreign ↦ rw foreign (omega int_laws)
]
write-used_memory t ws v (function id name_is_valid memory) = elim (Bool-cases (ws == v)) [
  | inl mine ↦ rw mine (omega int_laws)
  | inr foreign ↦ rw foreign (omega int_laws)
]

-- A request with a limit of 0 or less is not checked, and raises no sum.
pub range_max_positive : (mn mx : Option ℤ) → pos 1 ≤ℤ range_max mn mx
range_max_positive mn mx = ground arith

pub product_nonpositive :
    (memory replicas : ℤ)
    → ltb_ℤ (pos 0) memory ≡ false
    → pos 1 ≤ℤ replicas
    → memory *ℤ replicas ≤ℤ pos 0
unfolding ◌*ℤ◌
product_nonpositive (pos zero) (pos n) h p = ground arith
product_nonpositive (pos (suc m)) (pos n) h p = absurd (ground arith)
product_nonpositive (negsuc m) (pos n) h p = ground arith
product_nonpositive memory (negsuc n) h p = absurd (omega arith)

small_product :
    (memory replicas : ℤ)
    → ltb_ℤ (pos 0) memory ≡ true
    → pos 1 ≤ℤ replicas
    → IsSmall (memory *ℤ replicas)
    → wrap_i64 (memory *ℤ replicas) ≡ memory *ℤ replicas
unfolding ◌*ℤ◌
small_product (pos m) (pos n) h p small =
    let same : sub_ℕ (m * n + 0 * 0) (m * 0 + 0 * n) ≡ pos (m * n) = ground arith in
    let small' = rw same at small in rw same (wrap_i64-pos (m * n) (omega arith))
small_product (negsuc m) replicas h p small = absurd (ground arith)
small_product memory (negsuc n) h p small = absurd (omega arith)

pub first_ok : (p q : Result (Unit {0})) → (p >> q) ≡ ok tt → p ≡ ok tt
first_ok (ok tt) q e = refl
first_ok (err f) q e = absurd (cc)

module _ (t : Tables) (ws : Uuid) (w : Workspace) (limit : HasLimit t ws w) where
  -- A check that is made only for a positive limit, of an amount that is positive only then.
  pub positive_room :
      (memory amount : ℤ)
      → (ltb_ℤ (pos 0) memory ≡ false → amount ≤ℤ pos 0)
      → IsSmall amount
      → used_memory t ws none ≤ℤ w.max_memory_mb
      → if_positive memory (check_workspace_memory_limit t ws amount none) ≡ ok tt
      → used_memory t ws none +ℤ amount ≤ℤ w.max_memory_mb
  positive_room memory amount nothing small fits e = elim (Bool-cases (ltb_ℤ (pos 0) memory)) [
    | inl positive ↦ check_room t ws w amount limit small fits (rw positive at e)
    | inr not_positive ↦ let nonpositive = nothing not_positive in omega int_laws
  ]

  pub not_positive : (memory : ℤ) → ltb_ℤ (pos 0) memory ≡ false → memory ≤ℤ pos 0
  not_positive memory h = ground arith

  -- The product does not wrap where it is small.
  branch_room :
      (memory replicas : ℤ)
      → pos 1 ≤ℤ replicas
      → IsSmall (memory *ℤ replicas)
      → used_memory t ws none ≤ℤ w.max_memory_mb
      → if_positive memory (check_workspace_memory_limit t ws (wrap_i64 (memory *ℤ replicas)) none)
        ≡ ok tt
      → used_memory t ws none +ℤ memory *ℤ replicas ≤ℤ w.max_memory_mb
  branch_room memory replicas positive small fits e = elim (Bool-cases (ltb_ℤ (pos 0) memory)) [
    | inl memory_positive ↦
        let exact = small_product memory replicas memory_positive positive small in
        let e' = rw (memory_positive, exact) at e in
        check_room t ws w (memory *ℤ replicas) limit small fits e'
    | inr not_positive ↦
        let nonpositive = product_nonpositive memory replicas not_positive positive in
        omega int_laws
  ]

  pub checks-room :
      (r : Request)
      → IsSmall (requested r)
      → used_memory t ws none ≤ℤ w.max_memory_mb
      → checks t ws r ≡ ok tt
      → used_memory t ws none +ℤ requested r ≤ℤ w.max_memory_mb
  unfolding checks
  checks-room (branch app_id id memory cpu replicas_min replicas_max) small fits e =
      let (owned, rest) = guard_ok _ _ _ _ e in
      let replicas = range_max replicas_min replicas_max in
      branch_room (unwrap_or (pos 0) memory) replicas (range_max_positive replicas_min replicas_max)
        small fits (first_ok _ _ rest)
  checks-room (database id memory cpu) small fits e =
      positive_room memory memory (not_positive memory) small fits (first_ok _ _ e)
  checks-room (function id name_is_valid memory) small fits e =
      let (valid, rest) = guard_ok _ _ _ _ e in check_room t ws w memory limit small fits rest
