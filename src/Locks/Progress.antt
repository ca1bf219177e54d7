-- ===== src/Locks/Progress.antt =====
-- A free build slot is found (`acquire_build_slot` of backend/src/utils/locks.rs).
use project_hermes.Base.{
  refl, false, ℕ, zero, suc, ◌+◌, ◌≤◌, ◌<◌, max, ◌≡◌, subst, ◌≢◌, inl, inr, Bool, true, none, List,
  [], ◌∷◌, arith, ◌==◌, Bool-cases, length, count_where, any, delete_where,
}
use project_hermes.Locks.{Lock, held_by_other, try_advisory_lock, probe, acquire_build_slot_round}
use project_hermes.Locks.Slots.{is_slot, split_slot}

abbrev pub every_answer : ℕ → Bool
every_answer slot = true

any-delete :
    (cap s : ℕ) (locks : List Lock)
    → s < cap
    → any (is_slot s) locks ≡ true
    → any (is_slot s) (delete_where (is_slot cap) locks) ≡ true
any-delete cap s [] h e = cc
any-delete cap s (l ∷ ls) h e = ground (arith, any-delete cap s ls h)

any-count :
    (slot : ℕ) (locks : List Lock)
    → any (is_slot slot) locks ≡ true
    → 1 ≤ count_where (is_slot slot) locks
any-count slot [] e = absurd (ground arith)
any-count slot (l ∷ ls) e = ground (arith, any-count slot ls)

cap-le-length :
    (cap : ℕ) (locks : List Lock)
    → ((slot : ℕ) → slot < cap → any (is_slot slot) locks ≡ true)
    → cap ≤ length locks
cap-le-length zero locks taken = omega arith
cap-le-length (suc cap) locks taken = omega (
  arith,
  split_slot cap locks,
  any-count cap locks (taken cap (omega arith)),
  cap-le-length cap (delete_where (is_slot cap) locks)
      (λ s h. any-delete cap s locks h (taken s (omega arith))),
)

other-is_slot :
    (slot session : ℕ) (locks : List Lock)
    → any (held_by_other slot session) locks ≡ true
    → any (is_slot slot) locks ≡ true
other-is_slot slot session [] e = e
other-is_slot slot session (l ∷ ls) e = ground (arith, other-is_slot slot session ls)

probe-none :
    (seen : ℕ → List Lock) (session slot left : ℕ)
    → probe every_answer seen session slot left ≡ none
    → (s : ℕ) → slot ≤ s
    → s < slot + left
    → any (held_by_other s session) (seen s) ≡ true
unfolding probe try_advisory_lock
probe-none seen session slot zero e s low high = absurd (omega arith)
probe-none seen session slot (suc left) e s low high =
    elim (Bool-cases (any (held_by_other slot session) (seen slot))) [
      | inr open_slot ↦ absurd (let e' = rw open_slot at e in cc)
      | inl taken ↦ elim (Bool-cases (slot == s)) [
        | inl here ↦
            subst (λ (x : ℕ). any (held_by_other x session) (seen x) ≡ true) (ground arith) taken
        | inr later ↦
            probe-none seen session (slot + 1) left (rw taken at e) s (ground arith) (omega arith)
      ]
    ]

still_held : (a b : Bool) → (a ≡ false → b ≡ false) → b ≡ true → a ≡ true
still_held true b h e = refl
still_held false b h e = absurd (let off = h refl in cc)

-- A round of the acquisition whose queries are answered gets a slot if fewer slots than the cap
-- (one, if that is 0) are held when it begins and no other session takes a slot between its
-- queries, whatever slots are dropped meanwhile.
pub acquire_build_slot_round-ne-none :
    (max_slots session : ℕ) (locks : List Lock) (seen : ℕ → List Lock)
    → length locks < max max_slots 1
    → ((query slot : ℕ)
        → any (held_by_other slot session) locks ≡ false
        → any (held_by_other slot session) (seen query) ≡ false)
    → acquire_build_slot_round every_answer seen max_slots session ≢ none
unfolding acquire_build_slot_round
acquire_build_slot_round-ne-none max_slots session locks seen room untaken e = omega (
  arith,
  cap-le-length (max max_slots 1) locks (λ s h. other-is_slot s session locks (
      still_held _ _ (untaken s s)
        (probe-none seen session 0 (max max_slots 1) e s (omega arith) (omega arith)))),
)
