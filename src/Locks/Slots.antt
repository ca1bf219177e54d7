-- ===== src/Locks/Slots.antt =====
-- The cluster-wide cap on concurrent builds (`acquire_build_slot` of backend/src/utils/locks.rs).
use project_hermes.Base.{
  some, ℕ, zero, suc, ◌+◌, ◌≤◌, ◌<◌, max, ◌≡◌, refl, sym, subst, inl, inr, Bool, true, false, ◌&&◌,
  List, [], ◌∷◌, arith, ◌==◌, Bool-cases, length, count_where, any, delete_where, All,
}
use project_hermes.Locks.{
  Lock, held_by_other, try_advisory_lock, probe, acquire_build_slot_round, drop_build_slot,
}

abbrev pub is_slot : ℕ → Lock → Bool
is_slot slot l = l.slot == slot

abbrev pub is_session : ℕ → Lock → Bool
is_session session l = l.session == session

-- What replicas do to the locks: the query of a round that gets a slot, for a session of the pool that
-- holds none (a held one is pinned), and the drop of a slot by its holder. The other queries of a
-- round change nothing, and any steps may come between them.
pub data Step (max_slots : ℕ) : List Lock → List Lock → Type 0 where
  acquire :
      (answers : ℕ → Bool) (seen : ℕ → List Lock) (session slot : ℕ) (locks' : List Lock)
      → any (is_session session) (seen slot) ≡ false
      → acquire_build_slot_round answers seen max_slots session ≡ some slot
      → (try_advisory_lock slot session (seen slot)).0 ≡ locks'
      → Step max_slots (seen slot) locks'
  drop :
      (slot session : ℕ) (locks locks' : List Lock)
      → drop_build_slot slot session locks ≡ locks'
      → Step max_slots locks locks'

pub data Reach (max_slots : ℕ) : List Lock → Type 0 where
  start : (locks : List Lock) → locks ≡ [] → Reach max_slots locks
  next :
      {locks locks' : List Lock}
      → Reach max_slots locks
      → Step max_slots locks locks'
      → Reach max_slots locks'

-- No slot is held twice, and all are below the cap.
pub record AreDistinct (cap : ℕ) (locks : List Lock) : Type 0 where
  pub once : (slot : ℕ) → count_where (is_slot slot) locks ≤ 1
  pub below : All (λ l. l.slot < cap) locks

no_session_other :
    (slot session : ℕ) (locks : List Lock)
    → any (is_session session) locks ≡ false
    → any (held_by_other slot session) locks ≡ false
    → count_where (is_slot slot) locks ≡ 0
no_session_other slot session [] free open_slot = refl
no_session_other slot session (l ∷ ls) free open_slot =
    ground (arith, no_session_other slot session ls)

try-AreDistinct :
    (cap slot session : ℕ) (locks : List Lock)
    → slot < cap
    → any (is_session session) locks ≡ false
    → (try_advisory_lock slot session locks).1 ≡ true
    → AreDistinct cap locks
    → AreDistinct cap (try_advisory_lock slot session locks).0
unfolding try_advisory_lock
try-AreDistinct cap slot session locks h free got d =
    elim (Bool-cases (any (held_by_other slot session) locks)) [
      | inl taken ↦ absurd (ground arith)
      | inr open_slot ↦ rw open_slot (record {
        once = λ s. ground (arith, d.once s, no_session_other slot session locks free open_slot);
        below = (h, d.below);
      })
    ]

-- The slot that a round gets is below the cap, and its query was granted.
probe-some :
    (answers : ℕ → Bool) (seen : ℕ → List Lock) (cap session slot left : ℕ) {got : ℕ}
    → slot + left ≤ cap
    → probe answers seen session slot left ≡ some got
    → (got < cap) × ((try_advisory_lock got session (seen got)).1 ≡ true)
unfolding probe
probe-some answers seen cap session slot zero h e = absurd (cc)
probe-some answers seen cap session slot (suc left) {got = got} h e =
    elim (Bool-cases (answers slot && (try_advisory_lock slot session (seen slot)).1)) [
      | inl granted ↦
          let e' = rw granted at e in
          subst (λ (s : ℕ). (s < cap) × ((try_advisory_lock s session (seen s)).1 ≡ true))
            (some_slot slot got e') (omega arith, and_right _ _ granted)
      | inr no_luck ↦
          probe-some answers seen cap session (slot + 1) left (omega arith) (rw no_luck at e)
    ]
  where
    some_slot : (a b : ℕ) → some a ≡ some b → a ≡ b
    some_slot a b e = cc

    and_right : (a b : Bool) → (a && b) ≡ true → b ≡ true
    and_right true b h = h
    and_right false b h = absurd (cc)

drop-once :
    (slot session s : ℕ) (locks : List Lock)
    → count_where (is_slot s) (drop_build_slot slot session locks) ≤ count_where (is_slot s) locks
unfolding drop_build_slot
drop-once slot session s [] = omega arith
drop-once slot session s (l ∷ ls) = ground (arith, drop-once slot session s ls)

drop-below :
    (cap slot session : ℕ) (locks : List Lock)
    → All (λ l. l.slot < cap) locks
    → All (λ l. l.slot < cap) (drop_build_slot slot session locks)
unfolding drop_build_slot
drop-below cap slot session [] h = tt
drop-below cap slot session (l ∷ ls) h =
    elim (Bool-cases (l.slot == slot && l.session == session)) [
      | inl it ↦ rw it h.1
      | inr other ↦ rw other (h.0, drop-below cap slot session ls h.1)
    ]

Step-AreDistinct :
    {max_slots : ℕ} {locks locks' : List Lock}
    → Step max_slots locks locks'
    → AreDistinct (max max_slots 1) locks
    → AreDistinct (max max_slots 1) locks'
unfolding acquire_build_slot_round
Step-AreDistinct {max_slots} (acquire answers seen session slot locks' free e same) d =
    let (low, granted) =
      probe-some answers seen (max max_slots 1) session 0 (max max_slots 1) (omega arith) e in
    subst (AreDistinct (max max_slots 1)) same
      (try-AreDistinct (max max_slots 1) slot session (seen slot) low free granted d)
Step-AreDistinct {max_slots} (drop slot session locks locks' e) d =
    subst (AreDistinct (max max_slots 1)) e (record {
      once = λ s. omega (arith, drop-once slot session s locks, d.once s);
      below = drop-below (max max_slots 1) slot session locks d.below;
    })

Reach-AreDistinct :
    {max_slots : ℕ} {locks : List Lock}
    → Reach max_slots locks
    → AreDistinct (max max_slots 1) locks
Reach-AreDistinct (start locks e) =
    subst (AreDistinct _) (sym e) (record { once = λ s. omega arith; below = tt })
Reach-AreDistinct (next r st) = Step-AreDistinct st (Reach-AreDistinct r)

pub split_slot :
    (slot : ℕ) (locks : List Lock)
    → length locks ≡ count_where (is_slot slot) locks + length (delete_where (is_slot slot) locks)
split_slot slot [] = omega arith
split_slot slot (l ∷ ls) = ground (arith, split_slot slot ls)

count-delete :
    (slot s : ℕ) (locks : List Lock)
    → count_where (is_slot s) (delete_where (is_slot slot) locks) ≤ count_where (is_slot s) locks
count-delete slot s [] = omega arith
count-delete slot s (l ∷ ls) = ground (arith, count-delete slot s ls)

delete-below :
    (cap : ℕ) (locks : List Lock)
    → All (λ l. l.slot < suc cap) locks
    → All (λ l. l.slot < cap) (delete_where (is_slot cap) locks)
delete-below cap [] h = tt
delete-below cap (l ∷ ls) h = elim (Bool-cases (is_slot cap l)) [
  | inl it ↦ rw it (delete-below cap ls h.1)
  | inr other ↦ rw other ((let small = h.0 in ground arith), delete-below cap ls h.1)
]

length-le-cap :
    (cap : ℕ) (locks : List Lock)
    → ((slot : ℕ) → count_where (is_slot slot) locks ≤ 1)
    → All (λ l. l.slot < cap) locks
    → length locks ≤ cap
length-le-cap zero [] once below = omega arith
length-le-cap zero (l ∷ ls) once below = absurd (let small = below.0 in omega arith)
length-le-cap (suc cap) locks once below = omega (
  arith,
  split_slot cap locks,
  once cap,
  length-le-cap cap (delete_where (is_slot cap) locks)
      (λ s. omega (arith, count-delete cap s locks, once s)) (delete-below cap locks below),
)

-- However replicas acquire and drop build slots, at most max_slots builds (one, if that is 0) hold
-- one at a time, and no slot has two holders.
pub Reach-length :
    {max_slots : ℕ} {locks : List Lock}
    → Reach max_slots locks
    → (length locks ≤ max max_slots 1) × ((slot : ℕ) → count_where (is_slot slot) locks ≤ 1)
Reach-length {max_slots} {locks} r =
    let d = Reach-AreDistinct r in (length-le-cap (max max_slots 1) locks d.once d.below, d.once)
