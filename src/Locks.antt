-- ===== src/Locks.antt =====
-- backend/src/utils/locks.rs: coordination between replicas through PostgreSQL. The counters' table,
-- and the advisory locks, are the database's state; each function is one statement on it, at the
-- database's time `now`.
pub mod FixedWindow
pub mod Slots
pub mod Progress
pub mod WorkspaceKey
pub mod WorkspaceLock
use project_hermes.Base.{
  ℕ, zero, suc, ◌+◌, ◌-◌, ◌*◌, ◌/◌, ◌%◌, ◌^◌, ◌≤◌, ◌<◌, min, max, String, ◌≡◌, refl, sym, ap, ◌∙◌,
  subst, ◌≢◌, ◌↔◌, ◌⊎◌, inl, inr, Bool, true, false, ◌&&◌, ◌||◌, not, Option, none, some, List, [],
  ◌∷◌, ◌++◌, arith, str_eq, str_eq_iff, Uuid, Time, secs, ltb, leb, ◌==◌, if◌then◌else◌, ltb→lt,
  lt→ltb, leb→le, ==_iff, tests, Bool-cases, Option-cases, length, select, count_where, any, find,
  update_where, delete_where, All, map, All-append, All-if, All-update_where, All-delete_where,
  All-find,
}
use project_hermes.Base.Int.{ℤ, to_i64}
use project_hermes.Base.Assoc.{HashMap, lookup, insert}

-- `i64::from_le_bytes` of the first eight of the sixteen bytes of a UUID, lowest byte first.
unfoldable pub from_le_bytes : List ℕ → ℕ
from_le_bytes [] = 0
from_le_bytes (b ∷ bs) = b + 256 * from_le_bytes bs

abbrev pub take : ℕ → List ℕ → List ℕ
take zero bs = []
take (suc n) [] = []
take (suc n) (b ∷ bs) = b ∷ take n bs

unfoldable pub workspace_key : List ℕ → ℤ
workspace_key bytes = to_i64 (from_le_bytes (take 8 bytes))

pub record Counter : Type 0 where
  pub window_start : Time
  pub count : ℕ

abbrev pub i32_max : ℕ
i32_max = 2 ^ 31 - 1

-- The row after the UPSERT, and `none` where `count + 1` is out of range of its INTEGER column.
unfoldable pub bump : Time → Time → Option Counter → Option Counter
bump window now none = some (record { window_start = now; count = 1 })
bump window now (some c) =
    if ltb (c.window_start + window) now
    then some (record { window_start = now; count = 1 })
    else if c.count == i32_max
    then none
    else some (record { window_start = c.window_start; count = c.count + 1 })

abbrev pub Counters : Type 0
Counters = HashMap Counter

abbrev pub counted : String → ℕ → Counters → Option Counter → Counters × Bool
counted bucket max_count table none = (table, true)
counted bucket max_count table (some c) = (insert bucket c table, leb c.count max_count)

-- `reachable` is false where the query fails for a reason outside the statement: the limit then
-- fails open, as it does on an error of the statement itself.
unfoldable pub check_rate_limit : Bool → Time → String → ℕ → ℕ → Counters → Counters × Bool
check_rate_limit reachable now bucket max_count window_secs table =
    if reachable
    then counted bucket max_count table (bump (secs window_secs) now (lookup bucket table))
    else (table, true)

-- The advisory locks of the class BUILD_LOCK_CLASS that are held: a slot and its session.
pub record Lock : Type 0 where
  pub slot : ℕ
  pub session : ℕ

abbrev pub held_by_other : ℕ → ℕ → Lock → Bool
held_by_other slot session l = l.slot == slot && not (l.session == session)

-- pg_try_advisory_lock: a session may take a lock again that it holds.
unfoldable pub try_advisory_lock : ℕ → ℕ → List Lock → List Lock × Bool
try_advisory_lock slot session locks =
    if any (held_by_other slot session) locks
    then (locks, false)
    else (record { slot = slot; session = session } ∷ locks, true)

-- `for slot in 0..max` with `left` slots to go: each query is a statement of its own, and `seen slot`
-- are the locks when that of `slot` runs. `answers slot` is false where it fails, which counts as a
-- slot that is taken. The result is the slot.
unfoldable pub probe : (ℕ → Bool) → (ℕ → List Lock) → ℕ → ℕ → ℕ → Option ℕ
probe answers seen session slot zero = none
probe answers seen session slot (suc left) =
    let rest = probe answers seen session (slot + 1) left in
    if answers slot && (try_advisory_lock slot session (seen slot)).1 then some slot else rest

-- One round of the loop of `acquire_build_slot`; on `none` it sleeps and goes round again.
unfoldable pub acquire_build_slot_round : (ℕ → Bool) → (ℕ → List Lock) → ℕ → ℕ → Option ℕ
acquire_build_slot_round answers seen max_slots session =
    probe answers seen session 0 (max max_slots 1)

-- The drop of a `BuildSlot`: pg_advisory_unlock gives up one hold of the session on the slot.
unfoldable pub drop_build_slot : ℕ → ℕ → List Lock → List Lock
drop_build_slot slot session [] = []
drop_build_slot slot session (l ∷ locks) =
    if l.slot == slot && l.session == session then locks else l ∷ drop_build_slot slot session locks
