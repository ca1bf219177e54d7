-- ===== src/Locks/WorkspaceLock.antt =====
-- The advisory lock of a workspace (`WorkspaceLock` and `acquire_workspace_lock` of
-- backend/src/utils/locks.rs). `as_bytes` is that of the uuid crate. The locks that PostgreSQL has
-- granted are a list, each with the connection of the pool that is pinned for it.
use project_hermes.Base.{
  ℕ, String, ◌≡◌, subst, ◌≢◌, ◌⊎◌, inl, inr, Bool, true, false, ◌&&◌, not, Option, none, some, List,
  [], ◌∷◌, arith, Uuid, ◌==◌, if◌then◌else◌, Bool-cases, any,
}
use project_hermes.Base.Int.{ℤ, pos_part, neg_part}
use project_hermes.Base.AppError.{AppError, infrastructure, text}
use project_hermes.Locks.{workspace_key}

pub record WorkspaceLock : Type 0 where
  pub conn : ℕ
  pub key : ℤ

infix 50 ◌==ℤ◌
abbrev pub ◌==ℤ◌ : ℤ → ℤ → Bool
a ==ℤ b = pos_part a == pos_part b && neg_part a == neg_part b

abbrev pub is_held : ℤ → ℕ → WorkspaceLock → Bool
is_held key conn l = l.key ==ℤ key && l.conn == conn

abbrev pub blocks : ℤ → ℕ → WorkspaceLock → Bool
blocks key conn l = l.key ==ℤ key && not (l.conn == conn)

-- What comes of a call: it waits, while another connection holds the key, or returns.
pub data Acquired : Type 0 where
  waiting : Acquired
  failed : AppError → Acquired
  granted : WorkspaceLock → List WorkspaceLock → Acquired

module _ (as_bytes : Uuid → List ℕ) where
  abbrev pub key_of : Uuid → ℤ
  key_of ws = workspace_key (as_bytes ws)

  -- `pool` is the pool's answer, a connection or an error, and `refused` the error of the query, if
  -- it has one.
  unfoldable pub acquire_workspace_lock :
      String ⊎ ℕ → Option String → Uuid → List WorkspaceLock → Acquired
  acquire_workspace_lock (inl e) refused ws locks =
      failed (infrastructure (text "Failed to acquire lock connection: " ∷ text e ∷ []))
  acquire_workspace_lock (inr conn) (some e) ws locks =
      failed (infrastructure (text "Failed to take workspace lock: " ∷ text e ∷ []))
  acquire_workspace_lock (inr conn) none ws locks =
      if any (blocks (key_of ws) conn) locks
      then waiting
      else granted (record { conn = conn; key = key_of ws })
          (record { conn = conn; key = key_of ws } ∷ locks)

-- `Drop`: pg_advisory_unlock of the key on the pinned connection.
unfoldable pub drop_lock : WorkspaceLock → List WorkspaceLock → List WorkspaceLock
drop_lock lock [] = []
drop_lock lock (l ∷ locks) =
    if is_held lock.key lock.conn l then locks else l ∷ drop_lock lock locks

-- A key is held by one connection at most.
abbrev pub IsExclusive : List WorkspaceLock → Type 0
IsExclusive locks =
    (key : ℤ) (i j : ℕ)
    → any (is_held key i) locks ≡ true
    → any (is_held key j) locks ≡ true
    → i ≡ j

not_blocked :
    (key : ℤ) (i j : ℕ) (locks : List WorkspaceLock)
    → any (blocks key i) locks ≡ false
    → any (is_held key j) locks ≡ true
    → i ≡ j
not_blocked key i j [] h e = absurd (cc)
not_blocked key i j (l ∷ locks) h e = ground (arith, not_blocked key i j locks)

pub drop_lock-any :
    (lock : WorkspaceLock) (key : ℤ) (j : ℕ) (locks : List WorkspaceLock)
    → any (is_held key j) (drop_lock lock locks) ≡ true
    → any (is_held key j) locks ≡ true
unfolding drop_lock
drop_lock-any lock key j [] e = e
drop_lock-any lock key j (l ∷ locks) e = ground (arith, drop_lock-any lock key j locks)

-- The locks of the other connections stay.
pub drop_lock-other :
    (lock : WorkspaceLock) (key : ℤ) (j : ℕ) (locks : List WorkspaceLock)
    → lock.conn ≢ j
    → any (is_held key j) locks ≡ true
    → any (is_held key j) (drop_lock lock locks) ≡ true
unfolding drop_lock
drop_lock-other lock key j [] other e = e
drop_lock-other lock key j (l ∷ locks) other e =
    ground (arith, other, drop_lock-other lock key j locks)

pub drop_lock-IsExclusive :
    (lock : WorkspaceLock) (locks : List WorkspaceLock)
    → IsExclusive locks
    → IsExclusive (drop_lock lock locks)
drop_lock-IsExclusive lock locks ex key i j hi hj =
    ex key i j (drop_lock-any lock key i locks hi) (drop_lock-any lock key j locks hj)

eq_keys : (a b : ℤ) → (a ==ℤ b) ≡ true → a ≡ b
eq_keys a b h = ground arith

pub cons-IsExclusive :
    (key : ℤ) (conn : ℕ) (locks : List WorkspaceLock)
    → any (blocks key conn) locks ≡ false
    → IsExclusive locks
    → IsExclusive (record { conn = conn; key = key } ∷ locks)
cons-IsExclusive key conn locks free ex k i j hi hj = elim (Bool-cases (key ==ℤ k)) [
  | inl same ↦
      let free' = subst (λ v. any (blocks v conn) locks ≡ false) (eq_keys key k same) free in
      ground (arith, not_blocked k conn i locks free', not_blocked k conn j locks free', ex k i j)
  | inr other ↦ ex k i j (rw other at hi) (rw other at hj)
]
