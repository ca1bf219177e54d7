-- ===== src/Locks/WorkspaceKey.antt =====
-- The advisory-lock keys of workspaces (`workspace_key` of backend/src/utils/locks.rs).
use project_hermes.Base.{
  ℕ, zero, suc, ◌^◌, ◌≤◌, ◌<◌, ◌≡◌, refl, sym, ap, ◌∙◌, ◌↔◌, List, [], ◌∷◌, arith, length, All,
}
use project_hermes.Base.Int.{to_i64}
use native.Mathlib.Nat.{pow-suc}
use project_hermes.Locks.{from_le_bytes, take, workspace_key}

abbrev pub AreBytes : List ℕ → Type 0
AreBytes = All (λ b. b < 256)

from_le_bytes-lt : (bs : List ℕ) → AreBytes bs → from_le_bytes bs < 256 ^ length bs
unfolding from_le_bytes
from_le_bytes-lt [] h = omega arith
from_le_bytes-lt (b ∷ bs) h = let small = h.0 in rw pow-suc (omega (arith, from_le_bytes-lt bs h.1))

from_le_bytes_injective :
    (xs ys : List ℕ)
    → AreBytes xs
    → AreBytes ys
    → length xs ≡ length ys
    → from_le_bytes xs ≡ from_le_bytes ys
    → xs ≡ ys
unfolding from_le_bytes
from_le_bytes_injective [] [] hx hy len e = refl
from_le_bytes_injective [] (y ∷ ys) hx hy len e = absurd (omega arith)
from_le_bytes_injective (x ∷ xs) [] hx hy len e = absurd (omega arith)
from_le_bytes_injective (x ∷ xs) (y ∷ ys) hx hy len e =
    let small_x = hx.0 in
    let small_y = hy.0 in
    let same_head : x ≡ y = omega arith in
    let same_tail : from_le_bytes xs ≡ from_le_bytes ys = omega arith in
    cc (same_head, from_le_bytes_injective xs ys hx.1 hy.1 (omega arith) same_tail)

to_i64_injective : (m n : ℕ) → m < 2 ^ 64 → n < 2 ^ 64 → to_i64 m ≡ to_i64 n → m ≡ n
unfolding to_i64
to_i64_injective m n hm hn e = ground arith

take-AreBytes : (n : ℕ) (bs : List ℕ) → AreBytes bs → AreBytes (take n bs)
take-AreBytes zero bs h = tt
take-AreBytes (suc n) [] h = tt
take-AreBytes (suc n) (b ∷ bs) h = (h.0, take-AreBytes n bs h.1)

length-take : (n : ℕ) (bs : List ℕ) → n ≤ length bs → length (take n bs) ≡ n
length-take zero bs h = refl
length-take (suc n) [] h = omega arith
length-take (suc n) (b ∷ bs) h = omega (arith, length-take n bs (omega arith))

-- Two workspaces have one lock key exactly if their ids agree in the first eight bytes.
workspace_key_injective :
    (a b : List ℕ)
    → AreBytes a
    → AreBytes b
    → length a ≡ 16
    → length b ≡ 16
    → (workspace_key a ≡ workspace_key b) ↔ (take 8 a ≡ take 8 b)
unfolding workspace_key
workspace_key_injective a b ha hb la lb =
    let len_a = length-take 8 a (omega arith) in
    let len_b = length-take 8 b (omega arith) in
    let below_a = from_le_bytes-lt (take 8 a) (take-AreBytes 8 a ha) in
    let below_b = from_le_bytes-lt (take 8 b) (take-AreBytes 8 b hb) in
    (
      (λ e.
          from_le_bytes_injective (take 8 a) (take 8 b) (take-AreBytes 8 a ha)
            (take-AreBytes 8 b hb) (len_a ∙ sym len_b)
            (to_i64_injective _ _ (rw len_a at below_a) (rw len_b at below_b) e)),
      (λ e. ap (λ (bs : List ℕ). to_i64 (from_le_bytes bs)) e),
    )
