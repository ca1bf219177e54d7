-- ===== src/Leader/Election.antt =====
-- Who takes itself for the leader (backend/src/utils/leader.rs).
use project_hermes.Base.{
  ◌+◌, ◌≤◌, ◌<◌, ◌≡◌, refl, sym, ◌≢◌, ◌⊎◌, inl, inr, Bool, true, Option, none, some, List, [], ◌∷◌,
  ◌++◌, arith, Uuid, Time, ◌==◌, Bool-cases,
}
use mathlib.Core.Path.{subst₂}
use project_hermes.Leader.{
  Lease, lease_ttl, Delivery, answered, not_run, answer_lost, take_or_renew, Cluster, set_flag,
  won_at, tick, start, ticks,
}

-- The ticks are in the order of time, and none is after `now`.
abbrev pub IsTimeline : Time → List (Time × Uuid × Delivery) → Time → Type 0
IsTimeline last [] now = last ≤ now
IsTimeline last ((t, _, _) ∷ es) now = (last ≤ t) × IsTimeline t es now

-- Who won at `t` holds the lease that it wrote, unless the lease has run out since.
abbrev Holds : Time → Option Lease → Uuid → Time → Type 0
Holds last none n t = ⊥
Holds last (some l) n t = ((l.holder ≡ n) × (l.expires_at ≡ t + lease_ttl)) ⊎ (t + lease_ttl < last)

abbrev IsSound : Time → Cluster → Type 0
IsSound last c = (n : Uuid) (t : Time) → c.is_leader n ≡ some t → Holds last c.lease n t

took :
    (last now : Time) (node : Uuid) (lease : Option Lease) (n : Uuid) (t : Time)
    → last ≤ now
    → n ≢ node
    → Holds last lease n t
    → Holds now (take_or_renew now node lease).0 n t
unfolding take_or_renew
took last now node none n t order ne h = absurd h
took last now node (some l) n t order ne h = ground (arith, h)

won :
    (now : Time) (node : Uuid) (lease : Option Lease)
    → (take_or_renew now node lease).1 ≡ true
    → Holds now (take_or_renew now node lease).0 node now
unfolding take_or_renew
won now node none e = inl (refl, refl)
won now node (some l) e = ground arith

flag_won : (now t : Time) (b : Bool) → won_at now b ≡ some t → (b ≡ true) × (now ≡ t)
flag_won now t b e = ground arith

own_flag :
    (now t : Time) (node n : Uuid) (flag : Option Time) (flags : Uuid → Option Time)
    → (n == node) ≡ true
    → set_flag node flag flags n ≡ some t
    → (n ≡ node) × (flag ≡ some t)
own_flag now t node n flag flags me e = (ground arith, ground arith)

other_flag :
    (t : Time) (node n : Uuid) (flags : Uuid → Option Time)
    → set_flag node none flags n ≡ some t
    → (n ≢ node) × (flags n ≡ some t)
other_flag t node n flags e = elim (Bool-cases (n == node)) [
  | inl me ↦ absurd (ground arith)
  | inr other ↦ ((λ same. ground arith), ground arith)
]

older :
    (last now : Time) (lease : Option Lease) (n : Uuid) (t : Time)
    → last ≤ now
    → Holds last lease n t
    → Holds now lease n t
older last now none n t order h = h
older last now (some l) n t order h = ground (arith, h)

tick-IsSound :
    (last now : Time) (node : Uuid) (delivery : Delivery) (c : Cluster)
    → last ≤ now
    → IsSound last c
    → IsSound now (tick now node delivery c)
unfolding tick
tick-IsSound last now node answered c order s n t e = elim (Bool-cases (n == node)) [
  | inl me ↦
      let (same_node, flag) = own_flag now t node n _ c.is_leader me e in
      let (w, same_time) = flag_won now t (take_or_renew now node c.lease).1 flag in
      subst₂ (λ (m : Uuid) (u : Time). Holds now (take_or_renew now node c.lease).0 m u)
        (sym same_node) same_time (won now node c.lease w)
  | inr other ↦ took last now node c.lease n t order (ground arith) (s n t (rw other at e))
]
tick-IsSound last now node not_run c order s n t e =
    let (ne, flag) = other_flag t node n c.is_leader e in
    older last now c.lease n t order (s n t flag)
tick-IsSound last now node answer_lost c order s n t e =
    let (ne, flag) = other_flag t node n c.is_leader e in
    took last now node c.lease n t order ne (s n t flag)

later_IsSound : (last now : Time) (c : Cluster) → last ≤ now → IsSound last c → IsSound now c
later_IsSound last now c order s n t e = older last now c.lease n t order (s n t e)

ticks-IsSound :
    (last : Time) (es : List (Time × Uuid × Delivery)) (now : Time) (c : Cluster)
    → IsTimeline last es now
    → IsSound last c
    → IsSound now (ticks es c)
unfolding ticks
ticks-IsSound last [] now c order s = later_IsSound last now c order s
ticks-IsSound last ((t, node, delivery) ∷ es) now c order s =
    ticks-IsSound t es now (tick t node delivery c) order.1
      (tick-IsSound last t node delivery c order.0 s)

one_holder :
    (now : Time) (lease : Option Lease) (m n : Uuid) (t u : Time)
    → Holds now lease m t
    → Holds now lease n u
    → now ≤ t + lease_ttl
    → now ≤ u + lease_ttl
    → m ≡ n
one_holder now none m n t u hm hn fm fn = absurd hm
one_holder now (some l) m n t u hm hn fm fn = ground (arith, hm, hn)

-- Whatever ticks run, fail or lose their answer, in the order of time and from any lease: two
-- replicas that take themselves for the leader, and that both won within the last lease_ttl, are
-- one.
pub ticks-leader :
    (lease : Option Lease) (last now : Time) (es : List (Time × Uuid × Delivery)) (m n : Uuid)
    (t u : Time)
    → IsTimeline last es now
    → (ticks es (start lease)).is_leader m ≡ some t
    → (ticks es (start lease)).is_leader n ≡ some u
    → now ≤ t + lease_ttl
    → now ≤ u + lease_ttl
    → m ≡ n
unfolding start
ticks-leader lease last now es m n t u order em en fm fn =
    let s = ticks-IsSound last es now (start lease) order (λ k v e. absurd (ground arith)) in
    one_holder now (ticks es (start lease)).lease m n t u (s m t em) (s n u en) fm fn

-- The ticks of one replica alone, all answered.
abbrev pub alone : Uuid → List Time → List (Time × Uuid × Delivery)
alone node [] = []
alone node (t ∷ ts) = (t, node, answered) ∷ alone node ts

-- A row held by `node`, or none.
abbrev pub IsFree : Uuid → Option Lease → Type 0
IsFree node none = Unit
IsFree node (some l) = l.holder ≡ node

tick-IsFree :
    (now : Time) (node : Uuid) (c : Cluster)
    → IsFree node c.lease
    → IsFree node (tick now node answered c).lease
      × ((tick now node answered c).is_leader node ≡ some now)
unfolding tick take_or_renew
tick-IsFree now node c free = free_row c.lease free
  where
    free_row :
        (lease : Option Lease)
        → IsFree node lease
        → IsFree node (take_or_renew now node lease).0
          × (set_flag node (won_at now (take_or_renew now node lease).1) c.is_leader node
              ≡ some now)
    free_row none f = (refl, ground arith)
    free_row (some l) f = (ground (arith, f), ground (arith, f))

alone_from :
    (node : Uuid) (now : Time) (ts : List Time) (c : Cluster)
    → IsFree node c.lease
    → (ticks (alone node (ts ++ now ∷ [])) c).is_leader node ≡ some now
unfolding ticks
alone_from node now [] c free = (tick-IsFree now node c free).1
alone_from node now (t ∷ ts) c free =
    alone_from node now ts (tick t node answered c) (tick-IsFree t node c free).0

-- A single replica whose ticks are answered is the leader after each of them, however late they
-- come, if no other holds the lease at the start.
pub ticks-alone :
    (lease : Option Lease) (node : Uuid) (now : Time) (ts : List Time)
    → IsFree node lease
    → (ticks (alone node (ts ++ now ∷ [])) (start lease)).is_leader node ≡ some now
unfolding start
ticks-alone lease node now ts free = alone_from node now ts (start lease) free
