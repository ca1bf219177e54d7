-- ===== src/Base/TextOrder.antt =====
-- Rust's order of texts (`cmp`) is a strict total order.
use Prim.Native.Nat.{compare as compare_ℕ, Ordering}
use Prim.Native.String.compare
use Prim.Native.Char.{Char, code}
use Prim.Native.String.{String, compare, then}
use mathlib.Core.Path.{◌≡◌, refl}
use mathlib.Core.Logic.{◌⊎◌, inl, inr}
use text.Mathlib.TextEquality.{path_by_compare}
use text.Mathlib.TextPositions.{compare_refl}
use mathlib.Core.Bool.{Bool, true, false}
use native.Mathlib.Omega.{arith}
use text.Mathlib.Text.{is_lt}

abbrev pub text_lt : String → String → Bool
text_lt s t = is_lt (compare s t)

then_lt_trans :
    (a b c : Char) (o p q : Ordering)
    → is_lt (then (compare_ℕ (code a) (code b)) o) ≡ true
    → is_lt (then (compare_ℕ (code b) (code c)) p) ≡ true
    → (is_lt o ≡ true → is_lt p ≡ true → is_lt q ≡ true)
    → is_lt (then (compare_ℕ (code a) (code c)) q) ≡ true
then_lt_trans a b c o p q h k rest = ground (arith, rest)

pub text_lt_trans : (s t u : String) → text_lt s t ≡ true → text_lt t u ≡ true → text_lt s u ≡ true
text_lt_trans String.[] String.[] u h k = absurd (cc)
text_lt_trans String.[] (String.◌∷◌ d t) String.[] h k =
    absurd (let k' = rw compare.cons-nil at k in cc)
text_lt_trans String.[] (String.◌∷◌ d t) (String.◌∷◌ e u) h k = rw compare.nil-cons refl
text_lt_trans (String.◌∷◌ c s) String.[] u h k = absurd (let h' = rw compare.cons-nil at h in cc)
text_lt_trans (String.◌∷◌ c s) (String.◌∷◌ d t) String.[] h k =
    absurd (let k' = rw compare.cons-nil at k in cc)
text_lt_trans (String.◌∷◌ c s) (String.◌∷◌ d t) (String.◌∷◌ e u) h k = rw compare.cons-cons (
    then_lt_trans c d e (compare s t) (compare t u) (compare s u) (rw compare.cons-cons at h)
      (rw compare.cons-cons at k) (text_lt_trans s t u))

then_swap :
    (a b : Char) (o p : Ordering)
    → then (compare_ℕ (code a) (code b)) o ≡ Ordering.gt
    → (o ≡ Ordering.gt → p ≡ Ordering.lt)
    → then (compare_ℕ (code b) (code a)) p ≡ Ordering.lt
then_swap a b o p h rest = ground (arith, rest)

swap : (s t : String) → compare s t ≡ Ordering.gt → compare t s ≡ Ordering.lt
swap String.[] String.[] h = absurd (cc)
swap String.[] (String.◌∷◌ d t) h = absurd (let h' = rw compare.nil-cons at h in cc)
swap (String.◌∷◌ c s) String.[] h = rw compare.nil-cons refl
swap (String.◌∷◌ c s) (String.◌∷◌ d t) h =
    rw compare.cons-cons
      (then_swap c d (compare s t) (compare t s) (rw compare.cons-cons at h) (swap s t))

pub text_lt_irrefl : (s : String) → text_lt s s ≡ false
text_lt_irrefl s = rw (compare_refl s) refl

pub text_lt_total : (s t : String) → text_lt s t ≡ false → (s ≡ t) ⊎ (text_lt t s ≡ true)
text_lt_total s t h = of_ordering s t (compare s t) refl h
  where
    of_ordering :
        (a b : String) (o : Ordering)
        → compare a b ≡ o
        → is_lt o ≡ false
        → (a ≡ b) ⊎ (text_lt b a ≡ true)
    of_ordering a b Ordering.lt e k = absurd (cc)
    of_ordering a b Ordering.eq e k = inl (path_by_compare a b e)
    of_ordering a b Ordering.gt e k = inr (rw (swap a b e) refl)
