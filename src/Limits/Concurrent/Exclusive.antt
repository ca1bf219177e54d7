-- ===== src/Limits/Concurrent/Exclusive.antt =====
-- The lock of a workspace while creations interleave (backend/src/utils/locks.rs).
use project_hermes.Base.{ℕ, ◌≡◌, sym, ap, ◌∙◌, subst, inr, Bool, true, none, List, ◌∷◌, Uuid, any}
use project_hermes.Limits.{Tables}
use project_hermes.Limits.Concurrent.{
  Request, write, Phase, idle, holding, checked, dropped, set_phase, System, Step, acquire, check,
  refuse, commit, unlock, other, Reach, start, next,
}
use project_hermes.Locks.WorkspaceLock.{
  WorkspaceLock, is_held, key_of, granted, acquire_workspace_lock, drop_lock, IsExclusive,
  drop_lock-IsExclusive, cons-IsExclusive,
}
use project_hermes.Limits.Concurrent.Ready.{
  Locked, set_phase_all, granted_lock, Locked-cons, Locked-drop, held_self,
}

module _ (as_bytes : Uuid → List ℕ) (owner : Uuid → Uuid) where
  -- The locks have one holder each, and a handler past the acquisition holds its own.
  pub record Locking (s : System) : Type 0 where
    pub exclusive : IsExclusive s.locks
    pub locked : (i : ℕ) → Locked as_bytes owner s.locks i (s.phase i)

  acquire-Locking :
      {s : System} (i : ℕ) (ws : Uuid) (r : Request) {lock : WorkspaceLock}
      {locks : List WorkspaceLock}
      → Locking s
      → acquire_workspace_lock as_bytes (inr i) none ws s.locks ≡ granted lock locks
      → Locking (record s { locks = locks; phase = set_phase s.phase i (holding ws r lock) })
  acquire-Locking {s = s} i ws r {lock = lock} {locks = locks} v e =
      let (free, same_lock, same_locks) = granted_lock as_bytes owner i ws s.locks e in
      let key = key_of as_bytes ws in
      record {
        exclusive = subst IsExclusive same_locks (cons-IsExclusive key i s.locks free v.exclusive);
        locked =
            subst
              (λ (ls : List WorkspaceLock).
                (j : ℕ) → Locked as_bytes owner ls j (set_phase s.phase i (holding ws r lock) j))
              same_locks
              (set_phase_all as_bytes owner
                (Locked as_bytes owner (record { conn = i; key = key } ∷ s.locks)) s.phase i
                (holding ws r lock)
                (
                  sym (ap (λ (l : WorkspaceLock). l.conn) same_lock),
                  held_self as_bytes owner key i s.locks,
                )
                (λ j apart.
                  Locked-cons as_bytes owner (record { conn = i; key = key }) s.locks j (s.phase j)
                    (v.locked j)));
      }

  -- A handler that keeps its lock, or a lock that it is to drop, moves on.
  moved-Locking :
      (s : System) (i : ℕ) (t : Tables) (p q : Phase)
      → Locking s
      → s.phase i ≡ q
      → (Locked as_bytes owner s.locks i q → Locked as_bytes owner s.locks i p)
      → Locking (record s { tables = t; phase = set_phase s.phase i p })
  moved-Locking s i t p q v e keeps = record {
    exclusive = v.exclusive;
    locked =
        set_phase_all as_bytes owner (Locked as_bytes owner s.locks) s.phase i p
          (keeps (subst (Locked as_bytes owner s.locks i) e (v.locked i))) (λ j _. v.locked j);
  }

  unlock-Locking :
      {s : System} (i : ℕ) {ws : Uuid} {lock : WorkspaceLock}
      → Locking s
      → s.phase i ≡ dropped ws lock
      → Locking (record s { locks = drop_lock lock s.locks; phase = set_phase s.phase i idle })
  unlock-Locking {s = s} i {ws = ws} {lock = lock} v e =
      let held = subst (Locked as_bytes owner s.locks i) e (v.locked i) in
      record {
        exclusive = drop_lock-IsExclusive lock s.locks v.exclusive;
        locked =
            set_phase_all as_bytes owner (Locked as_bytes owner (drop_lock lock s.locks)) s.phase i
              idle tt
              (λ j apart.
                Locked-drop as_bytes owner lock s.locks j (s.phase j)
                  (λ same. apart (sym held.0 ∙ same)) (v.locked j));
      }

  abbrev pub IsInside : Uuid → Phase → Type 0
  IsInside ws idle = ⊥
  IsInside ws (holding v r lock) = v ≡ ws
  IsInside ws (checked v r lock) = v ≡ ws
  IsInside ws (dropped v lock) = v ≡ ws

  inside_held :
      (locks : List WorkspaceLock) (i : ℕ) (ws : Uuid) (p : Phase)
      → IsInside ws p
      → Locked as_bytes owner locks i p
      → any (is_held (key_of as_bytes ws) i) locks ≡ true
  inside_held locks i ws idle h k = absurd h
  inside_held locks i ws (holding v r lock) h k =
      subst (λ u. any (is_held (key_of as_bytes u) i) locks ≡ true) h k.1
  inside_held locks i ws (checked v r lock) h k =
      subst (λ u. any (is_held (key_of as_bytes u) i) locks ≡ true) h k.1
  inside_held locks i ws (dropped v lock) h k =
      subst (λ u. any (is_held (key_of as_bytes u) i) locks ≡ true) h k.1

module _ (as_bytes : Uuid → List ℕ) (owner : Uuid → Uuid) (sends : Request → Bool) where
  pub Step-Locking :
      {s u : System}
      → Step as_bytes owner sends s u
      → Locking as_bytes owner s
      → Locking as_bytes owner u
  Step-Locking (acquire i ws r sent free e) v = acquire-Locking as_bytes owner i ws r v e
  Step-Locking {s = s} (check i {ws = ws} {r = r} {lock = lock} e passed) v =
      moved-Locking as_bytes owner s i s.tables (checked ws r lock) (holding ws r lock) v e (λ h. h)
  Step-Locking {s = s} (refuse i {ws = ws} {r = r} {lock = lock} e) v =
      moved-Locking as_bytes owner s i s.tables (dropped ws lock) (holding ws r lock) v e (λ h. h)
  Step-Locking {s = s} (commit i {ws = ws} {r = r} {lock = lock} e) v =
      moved-Locking as_bytes owner s i (write s.tables ws r) (dropped ws lock) (checked ws r lock) v
        e (λ h. h)
  Step-Locking (unlock i e) v = unlock-Locking as_bytes owner i v e
  Step-Locking {s = s} (other t same own less) v = record {
    exclusive = v.exclusive;
    locked = v.locked;
  }

  pub Reach-Locking :
      {t : Tables} {s : System} → Reach as_bytes owner sends t s → Locking as_bytes owner s
  Reach-Locking start = record { exclusive = λ key i j h. absurd (cc); locked = λ i. tt }
  Reach-Locking (next r step) = Step-Locking step (Reach-Locking r)

  -- However creations by handlers of any replicas interleave, with each other and with statements
  -- that raise no workspace's memory and change no limit, from a state without locks: two handlers
  -- that are between the acquisition and the release of the lock of one workspace are one handler.
  pub Reach-exclusive :
      {t : Tables} {s : System}
      → Reach as_bytes owner sends t s
      → (ws : Uuid) (i j : ℕ) → IsInside as_bytes owner ws (s.phase i)
      → IsInside as_bytes owner ws (s.phase j)
      → i ≡ j
  Reach-exclusive {s = s} r ws i j hi hj =
      let v = Reach-Locking r in
      v.exclusive (key_of as_bytes ws) i j
        (inside_held as_bytes owner s.locks i ws (s.phase i) hi (v.locked i))
        (inside_held as_bytes owner s.locks j ws (s.phase j) hj (v.locked j))
