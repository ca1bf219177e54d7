-- ===== src/Limits/Concurrent/Ready.antt =====
-- What a handler relies on between its checks and its write: its lock (backend/src/utils/locks.rs),
-- and room for its row.
use project_hermes.Base.{
  ℕ, ◌≡◌, sym, ◌∙◌, subst, ◌≢◌, inl, inr, true, false, none, List, ◌∷◌, arith, Uuid, ◌==◌, ==_iff,
  Bool-cases, any,
}
use project_hermes.Base.Int.{ℤ, pos, ◌+ℤ◌, ◌≤ℤ◌, int_laws}
use project_hermes.Base.AppError.{ok}
use project_hermes.Limits.{Workspace, Tables, used_memory}
use project_hermes.Limits.Memory.{HasLimit, IsSmall, guard_ok}
use project_hermes.Limits.Concurrent.{
  Request, branch, database, function, checks, write, requested, Phase, idle, holding, checked,
  dropped, set_phase, IsOwner,
}
use project_hermes.Locks.WorkspaceLock.{
  WorkspaceLock, is_held, blocks, key_of, granted, acquire_workspace_lock, drop_lock, IsExclusive,
  drop_lock-other,
}
use project_hermes.Limits.Concurrent.Room.{counts, write-used_memory}

module _ (as_bytes : Uuid → List ℕ) (owner : Uuid → Uuid) where
  -- The lock of connection `i` for `ws`, as `acquire_workspace_lock` makes it, is granted.
  abbrev pub Owns : List WorkspaceLock → ℕ → Uuid → WorkspaceLock → Type 0
  Owns locks i ws lock = (lock.conn ≡ i) × (any (is_held (key_of as_bytes ws) i) locks ≡ true)

  abbrev pub Locked : List WorkspaceLock → ℕ → Phase → Type 0
  Locked locks i idle = Unit
  Locked locks i (holding ws r lock) = Owns locks i ws lock
  Locked locks i (checked ws r lock) = Owns locks i ws lock
  Locked locks i (dropped ws lock) = Owns locks i ws lock

  abbrev pub Belongs : Uuid → Request → Type 0
  Belongs ws (branch app_id id memory cpu replicas_min replicas_max) = owner app_id ≡ ws
  Belongs ws (database id memory cpu) = Unit
  Belongs ws (function id name_is_valid memory) = Unit

  -- What a handler that passed its checks relies on until it writes.
  abbrev pub Ready : Tables → Phase → Type 0
  Ready t idle = Unit
  Ready t (holding ws r lock) = IsSmall (requested r)
  Ready t (checked ws r lock) =
      Belongs ws r
      × ((w : Workspace)
          → HasLimit t ws w
          → used_memory t ws none +ℤ requested r ≤ℤ w.max_memory_mb)
  Ready t (dropped ws lock) = Unit

  abbrev pub Fits : Tables → Type 0
  Fits t = (ws : Uuid) (w : Workspace) → HasLimit t ws w → used_memory t ws none ≤ℤ w.max_memory_mb

  pub counts-Belongs :
      (t : Tables) (ws v : Uuid) (r : Request)
      → IsOwner as_bytes owner t
      → Belongs ws r
      → counts t ws v r ≡ true
      → ws ≡ v
  counts-Belongs t ws v (branch app_id id memory cpu replicas_min replicas_max) own b c =
      sym b ∙ own v app_id c
  counts-Belongs t ws v (database id memory cpu) own b c = (==_iff ws v).0 c
  counts-Belongs t ws v (function id name_is_valid memory) own b c = (==_iff ws v).0 c

  pub checks-Belongs :
      (t : Tables) (ws : Uuid) (r : Request)
      → IsOwner as_bytes owner t
      → checks t ws r ≡ ok tt
      → Belongs ws r
  unfolding checks
  checks-Belongs t ws (branch app_id id memory cpu replicas_min replicas_max) own e =
      own ws app_id (guard_ok _ _ _ _ e).0
  checks-Belongs t ws (database id memory cpu) own e = tt
  checks-Belongs t ws (function id name_is_valid memory) own e = tt

  -- A change of the phase of one connection.
  pub set_phase_all :
      (P : ℕ → Phase → Type 0) (phase : ℕ → Phase) (i : ℕ) (p : Phase)
      → P i p
      → ((j : ℕ) → i ≢ j → P j (phase j))
      → (j : ℕ) → P j (set_phase phase i p j)
  set_phase_all P phase i p here there j = elim (Bool-cases (i == j)) [
    | inl same ↦ rw same (subst (λ k. P k p) ((==_iff i j).0 same) here)
    | inr apart ↦ rw apart (there j (ground arith))
  ]

  pub from_phase : (P : Phase → Type 0) {p q : Phase} → p ≡ q → P p → P q
  from_phase P e h = subst P e h

  pub granted_lock :
      (i : ℕ) (ws : Uuid) (locks : List WorkspaceLock) {lock : WorkspaceLock}
      {locks' : List WorkspaceLock}
      → acquire_workspace_lock as_bytes (inr i) none ws locks ≡ granted lock locks'
      → (any (blocks (key_of as_bytes ws) i) locks ≡ false)
        × (record { conn = i; key = key_of as_bytes ws } ≡ lock)
        × (record { conn = i; key = key_of as_bytes ws } ∷ locks ≡ locks')
  unfolding acquire_workspace_lock
  granted_lock i ws locks e = elim (Bool-cases (any (blocks (key_of as_bytes ws) i) locks)) [
    | inl busy ↦ absurd (let e' = rw busy at e in cc)
    | inr free ↦ let e' = rw free at e in (free, cc, cc)
  ]

  pub Locked-cons :
      (l : WorkspaceLock) (locks : List WorkspaceLock) (j : ℕ) (p : Phase)
      → Locked locks j p
      → Locked (l ∷ locks) j p
  Locked-cons l locks j idle h = tt
  Locked-cons l locks j (holding ws r lock) h = (h.0, ground arith)
  Locked-cons l locks j (checked ws r lock) h = (h.0, ground arith)
  Locked-cons l locks j (dropped ws lock) h = (h.0, ground arith)

  pub Locked-drop :
      (l : WorkspaceLock) (locks : List WorkspaceLock) (j : ℕ) (p : Phase)
      → l.conn ≢ j
      → Locked locks j p
      → Locked (drop_lock l locks) j p
  Locked-drop l locks j idle h k = tt
  Locked-drop l locks j (holding ws r lock) h k =
      (k.0, drop_lock-other l (key_of as_bytes ws) j locks h k.1)
  Locked-drop l locks j (checked ws r lock) h k =
      (k.0, drop_lock-other l (key_of as_bytes ws) j locks h k.1)
  Locked-drop l locks j (dropped ws lock) h k =
      (k.0, drop_lock-other l (key_of as_bytes ws) j locks h k.1)

  pub held_self :
      (key : ℤ) (i : ℕ) (locks : List WorkspaceLock)
      → any (is_held key i) (record { conn = i; key = key } ∷ locks) ≡ true
  held_self key i locks = ground arith

  pub write-HasLimit :
      (t : Tables) (ws v : Uuid) (r : Request) {w : Workspace}
      → HasLimit (write t ws r) v w
      → HasLimit t v w
  unfolding write
  write-HasLimit t ws v (branch _ _ _ _ _ _) h = record {
    found = h.found;
    limited = h.limited;
    column = h.column;
  }
  write-HasLimit t ws v (database _ _ _) h = record {
    found = h.found;
    limited = h.limited;
    column = h.column;
  }
  write-HasLimit t ws v (function _ _ _) h = record {
    found = h.found;
    limited = h.limited;
    column = h.column;
  }

  pub write-IsOwner :
      (t : Tables) (ws : Uuid) (r : Request)
      → IsOwner as_bytes owner t
      → IsOwner as_bytes owner (write t ws r)
  unfolding write
  write-IsOwner t ws (branch _ _ _ _ _ _) own = own
  write-IsOwner t ws (database _ _ _) own = own
  write-IsOwner t ws (function _ _ _) own = own

  -- The new row counts for the workspace of its handler and for no other.
  pub write-room :
      (t : Tables) (ws v : Uuid) (r : Request) (extra limit : ℤ)
      → (counts t ws v r ≡ true → used_memory t v none +ℤ requested r +ℤ extra ≤ℤ limit)
      → used_memory t v none +ℤ extra ≤ℤ limit
      → used_memory (write t ws r) v none +ℤ extra ≤ℤ limit
  write-room t ws v r extra limit own foreign =
      rw (write-used_memory t ws v r) (elim (Bool-cases (counts t ws v r)) [
        | inl mine ↦ rw mine (own mine)
        | inr not_mine ↦ rw not_mine (omega int_laws)
      ])

  pub write-Fits :
      (t : Tables) (ws : Uuid) (r : Request) (lock : WorkspaceLock)
      → IsOwner as_bytes owner t
      → Fits t
      → Ready t (checked ws r lock)
      → Fits (write t ws r)
  write-Fits t ws r lock own fits ready v w h =
      let limit = write-HasLimit t ws v r h in
      let fitting = fits v w limit in
      let roomy =
        write-room t ws v r (pos 0) w.max_memory_mb
          (λ c.
            let same = counts-Belongs t ws v r own ready.0 c in
            let room =
              subst
                (λ (u : Uuid).
                  HasLimit t u w → used_memory t u none +ℤ requested r ≤ℤ w.max_memory_mb)
                same (ready.1 w) limit in
            omega int_laws)
          (omega int_laws) in
      omega int_laws

  abbrev pub Apart : Uuid → Phase → Type 0
  Apart ws idle = Unit
  Apart ws (holding v r lock) = Unit
  Apart ws (checked v r lock) = ws ≢ v
  Apart ws (dropped v lock) = Unit

  pub Locked-Apart :
      (locks : List WorkspaceLock) (i j : ℕ) (ws : Uuid) (p : Phase)
      → IsExclusive locks
      → i ≢ j
      → any (is_held (key_of as_bytes ws) i) locks ≡ true
      → Locked locks j p
      → Apart ws p
  Locked-Apart locks i j ws idle ex apart held h = tt
  Locked-Apart locks i j ws (holding v r lock) ex apart held h = tt
  Locked-Apart locks i j ws (checked v r lock) ex apart held h = λ same. apart (
      ex (key_of as_bytes v) i j
        (subst (λ u. any (is_held (key_of as_bytes u) i) locks ≡ true) same held) h.1)
  Locked-Apart locks i j ws (dropped v lock) ex apart held h = tt

  pub write-Ready :
      (t : Tables) (ws : Uuid) (r : Request) (p : Phase)
      → IsOwner as_bytes owner t
      → Belongs ws r
      → Apart ws p
      → Ready t p
      → Ready (write t ws r) p
  write-Ready t ws r idle own b apart h = tt
  write-Ready t ws r (holding v q lock) own b apart h = h
  write-Ready t ws r (checked v q lock) own b apart h = (
    h.0,
    λ w limit.
        write-room t ws v r (requested q) w.max_memory_mb
          (λ c. absurd (apart (counts-Belongs t ws v r own b c)))
          (h.1 w (write-HasLimit t ws v r limit)),
  )
  write-Ready t ws r (dropped v lock) own b apart h = tt
