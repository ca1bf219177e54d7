-- ===== src/Leader.antt =====
-- backend/src/utils/leader.rs: the lease by which one replica at a time runs the background workers.
-- The lease row is the database's state, and `IS_LEADER` is a flag of each replica. A tick is one
-- turn of the elector's loop, at the database's time `now`.
pub mod Election
use project_hermes.Base.{
  ℕ, zero, suc, ◌+◌, ◌-◌, ◌*◌, ◌/◌, ◌%◌, ◌^◌, ◌≤◌, ◌<◌, min, max, String, ◌≡◌, refl, sym, ap, ◌∙◌,
  subst, ◌≢◌, ◌↔◌, ◌⊎◌, inl, inr, Bool, true, false, ◌&&◌, ◌||◌, not, Option, none, some, List, [],
  ◌∷◌, ◌++◌, arith, str_eq, str_eq_iff, Uuid, Time, secs, ltb, leb, ◌==◌, if◌then◌else◌, ltb→lt,
  lt→ltb, leb→le, ==_iff, tests, Bool-cases, Option-cases, length, select, count_where, any, find,
  update_where, delete_where, All, map, All-append, All-if, All-update_where, All-delete_where,
  All-find,
}

abbrev pub lease_ttl : Time
lease_ttl = secs 30

abbrev pub renew_every : Time
renew_every = secs 10

pub record Lease : Type 0 where
  pub holder : Uuid
  pub expires_at : Time

-- How the UPSERT fares: it runs and is answered, it does not run, or it runs and the answer is lost.
pub data Delivery : Type 0 where
  answered not_run answer_lost : Delivery

-- The lease after the UPSERT, and whether a row was returned.
unfoldable pub take_or_renew : Time → Uuid → Option Lease → Option Lease × Bool
take_or_renew now node none = (some (record { holder = node; expires_at = now + lease_ttl }), true)
take_or_renew now node (some l) =
    if l.holder == node || ltb l.expires_at now
    then (some (record { holder = node; expires_at = now + lease_ttl }), true)
    else (some l, false)

-- The flags hold, for each replica that takes itself for the leader, the time of its last win.
pub record Cluster : Type 0 where
  pub lease : Option Lease
  pub is_leader : Uuid → Option Time

abbrev pub set_flag : Uuid → Option Time → (Uuid → Option Time) → Uuid → Option Time
set_flag node flag flags n = if n == node then flag else flags n

abbrev pub won_at : Time → Bool → Option Time
won_at now won = if won then some now else none

unfoldable pub tick : Time → Uuid → Delivery → Cluster → Cluster
tick now node answered c =
    let (lease', won) = take_or_renew now node c.lease in
    record { lease = lease'; is_leader = set_flag node (won_at now won) c.is_leader }
tick now node not_run c = record c { is_leader = set_flag node none c.is_leader }
tick now node answer_lost c = record {
  lease = (take_or_renew now node c.lease).0;
  is_leader = set_flag node none c.is_leader;
}

unfoldable pub start : Option Lease → Cluster
start lease = record { lease = lease; is_leader = λ n. none }

unfoldable pub ticks : List (Time × Uuid × Delivery) → Cluster → Cluster
ticks [] c = c
ticks ((now, node, delivery) ∷ es) c = ticks es (tick now node delivery c)
