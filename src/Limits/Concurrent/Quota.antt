-- ===== src/Limits/Concurrent/Quota.antt =====
-- The memory quota of a workspace while creations interleave (backend/src/utils/limits.rs under the
-- lock of backend/src/utils/locks.rs).
use project_hermes.Base.{ℕ, ◌≡◌, subst, Bool, true, none, some, List, Uuid, ◌==◌, find}
use project_hermes.Base.Int.{◌≤ℤ◌, int_laws}
use project_hermes.Limits.{Workspace, Tables, used_memory}
use project_hermes.Limits.Memory.{HasLimit, IsSmall}
use project_hermes.Limits.Concurrent.{
  Request, requested, write, Phase, idle, holding, checked, dropped, set_phase, System, Step,
  acquire, check, refuse, commit, unlock, other, Reach, start, next, IsOwner,
}
use project_hermes.Locks.WorkspaceLock.{WorkspaceLock}
use project_hermes.Limits.Concurrent.Room.{checks-room}
use project_hermes.Limits.Concurrent.Ready.{
  Locked, Ready, Fits, checks-Belongs, set_phase_all, write-IsOwner, write-Fits, Locked-Apart,
  write-Ready,
}
use project_hermes.Limits.Concurrent.Exclusive.{Locking, Step-Locking, Reach-Locking}

module _ (as_bytes : Uuid → List ℕ) (owner : Uuid → Uuid) where
  record Inv (s : System) : Type 0 where
    locking : Locking as_bytes owner s
    ready : (i : ℕ) → Ready as_bytes owner s.tables (s.phase i)
    owners : IsOwner as_bytes owner s.tables
    fits : Fits as_bytes owner s.tables

  moved-Ready :
      (s : System) (i : ℕ) (p : Phase)
      → Inv s
      → Ready as_bytes owner s.tables p
      → (j : ℕ) → Ready as_bytes owner s.tables (set_phase s.phase i p j)
  moved-Ready s i p v h =
      set_phase_all as_bytes owner (λ _. Ready as_bytes owner s.tables) s.phase i p h
        (λ j _. v.ready j)

  commit-Inv :
      {s : System} (i : ℕ) {ws : Uuid} {r : Request} {lock : WorkspaceLock}
      → Inv s
      → Locking as_bytes owner
          (record s { tables = write s.tables ws r; phase = set_phase s.phase i (dropped ws lock) })
      → s.phase i ≡ checked ws r lock
      → Inv
          (record s { tables = write s.tables ws r; phase = set_phase s.phase i (dropped ws lock) })
  commit-Inv {s = s} i {ws = ws} {r = r} {lock = lock} v locking e =
      let held = subst (Locked as_bytes owner s.locks i) e (v.locking.locked i) in
      let ready = subst (Ready as_bytes owner s.tables) e (v.ready i) in
      record {
        locking = locking;
        ready =
            set_phase_all as_bytes owner (λ _. Ready as_bytes owner (write s.tables ws r)) s.phase i
              (dropped ws lock) tt
              (λ j apart.
                write-Ready as_bytes owner s.tables ws r (s.phase j) v.owners ready.0
                  (Locked-Apart as_bytes owner s.locks i j ws (s.phase j) v.locking.exclusive apart
                    held.1 (v.locking.locked j))
                  (v.ready j));
        owners = write-IsOwner as_bytes owner s.tables ws r v.owners;
        fits = write-Fits as_bytes owner s.tables ws r lock v.owners v.fits ready;
      }

  same-HasLimit :
      (t u : Tables) (ws : Uuid) {w : Workspace}
      → t.workspaces ≡ u.workspaces
      → HasLimit t ws w
      → HasLimit u ws w
  same-HasLimit t u ws {w = w} e h = record {
    found = subst (λ (rows : List Workspace). find (λ v. v.id == ws) rows ≡ some w) e h.found;
    limited = h.limited;
    column = h.column;
  }

  other-Ready :
      (t u : Tables) (p : Phase)
      → t.workspaces ≡ u.workspaces
      → ((ws : Uuid) → used_memory t ws none ≤ℤ used_memory u ws none)
      → Ready as_bytes owner u p
      → Ready as_bytes owner t p
  other-Ready t u idle e less h = tt
  other-Ready t u (holding ws r lock) e less h = h
  other-Ready t u (checked ws r lock) e less h = (
    h.0,
    λ w limit.
        let room = h.1 w (same-HasLimit t u ws e limit) in let lower = less ws in omega int_laws,
  )
  other-Ready t u (dropped ws lock) e less h = tt

module _ (as_bytes : Uuid → List ℕ) (owner : Uuid → Uuid) (sends : Request → Bool)
    (small : (r : Request) → sends r ≡ true → IsSmall (requested r)) where
  Step-Inv :
      {s u : System} → Step as_bytes owner sends s u → Inv as_bytes owner s → Inv as_bytes owner u
  Step-Inv {s = s} (acquire i ws r sent free e) v = record {
    locking = Step-Locking as_bytes owner sends (acquire i ws r sent free e) v.locking;
    ready = moved-Ready as_bytes owner s i _ v (small r sent);
    owners = v.owners;
    fits = v.fits;
  }
  Step-Inv {s = s} (check i {ws = ws} {r = r} {lock = lock} e passed) v = record {
    locking = Step-Locking as_bytes owner sends (check i e passed) v.locking;
    ready = moved-Ready as_bytes owner s i (checked ws r lock) v (
      checks-Belongs as_bytes owner s.tables ws r v.owners passed,
      λ w limit.
          checks-room s.tables ws w limit r (subst (Ready as_bytes owner s.tables) e (v.ready i))
            (v.fits ws w limit) passed,
    );
    owners = v.owners;
    fits = v.fits;
  }
  Step-Inv {s = s} (refuse i {ws = ws} {r = r} {lock = lock} e) v = record {
    locking = Step-Locking as_bytes owner sends (refuse i e) v.locking;
    ready = moved-Ready as_bytes owner s i (dropped ws lock) v tt;
    owners = v.owners;
    fits = v.fits;
  }
  Step-Inv (commit i e) v =
      commit-Inv as_bytes owner i v (Step-Locking as_bytes owner sends (commit i e) v.locking) e
  Step-Inv {s = s} (unlock i e) v = record {
    locking = Step-Locking as_bytes owner sends (unlock i e) v.locking;
    ready = moved-Ready as_bytes owner s i idle v tt;
    owners = v.owners;
    fits = v.fits;
  }
  Step-Inv {s = s} (other t same own less) v = record {
    locking = Step-Locking as_bytes owner sends (other t same own less) v.locking;
    ready = λ j. other-Ready as_bytes owner t s.tables (s.phase j) same less (v.ready j);
    owners = own;
    fits = λ ws w limit.
        let fitting = v.fits ws w (same-HasLimit as_bytes owner t s.tables ws same limit) in
        let lower = less ws in omega int_laws;
  }

  Reach-Inv :
      {t : Tables} {s : System}
      → IsOwner as_bytes owner t
      → Fits as_bytes owner t
      → Reach as_bytes owner sends t s
      → Inv as_bytes owner s
  Reach-Inv own fits start = record {
    locking = Reach-Locking as_bytes owner sends start;
    ready = λ i. tt;
    owners = own;
    fits = fits;
  }
  Reach-Inv own fits (next r step) = Step-Inv step (Reach-Inv own fits r)

  -- However creations by handlers of any replicas interleave, with each other and with statements
  -- that raise no workspace's memory and change no limit: every workspace with a memory limit stays
  -- within it, if all were within theirs and no lock was held at the start, no app changes its
  -- workspace, no request asks for more than 2^62 MB over all its replicas (where the sums and
  -- products of i64 do not wrap), and the limits are values of an INTEGER column.
  pub Reach-used_memory :
      {t : Tables} {s : System}
      → IsOwner as_bytes owner t
      → Fits as_bytes owner t
      → Reach as_bytes owner sends t s
      → Fits as_bytes owner s.tables
  Reach-used_memory own fits r = (Reach-Inv own fits r).fits
