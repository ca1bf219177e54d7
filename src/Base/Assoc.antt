-- ===== src/Base/Assoc.antt =====
-- Maps with text keys as association lists: Rust's `HashMap<String, V>`, where no code depends on
-- the order of the entries.
use Prim.Native.String.{String}
use mathlib.Core.Path.{◌≡◌, refl, subst}
use mathlib.Core.Logic.{inl, inr}
use mathlib.Core.Bool.{Bool}
use mathlib.Core.Option.{Option, none, some}
use mathlib.Core.List.{List, [], ◌∷◌}
use native.Mathlib.Omega.{arith}
use text.Mathlib.Text.{◌==◌}
use text.Mathlib.TextEquality.{eq_iff}
use project_hermes.Base.Tests.{if◌then◌else◌, Bool-cases}

abbrev pub HashMap {ℓ} : Type ℓ → Type ℓ
HashMap V = List (String × V)

module _ {ℓ} {V : Type ℓ} where
  unfoldable pub lookup : String → HashMap V → Option V
  lookup key [] = none
  lookup key ((k, value) ∷ m) = if k == key then some value else lookup key m

  unfoldable pub insert : String → V → HashMap V → HashMap V
  insert key value [] = (key, value) ∷ []
  insert key value ((k, old) ∷ m) =
      if k == key then (key, value) ∷ m else (k, old) ∷ insert key value m

  -- map.retain(|_, v| p(v))
  unfoldable pub retain : (V → Bool) → HashMap V → HashMap V
  retain p [] = []
  retain p ((j, v) ∷ m) = let rest = retain p m in if p v then (j, v) ∷ rest else rest

  -- No key stands twice.
  abbrev pub HasUniqueKeys : List (String × V) → Type ℓ
  HasUniqueKeys [] = Unit
  HasUniqueKeys ((j, v) ∷ m) = (lookup j m ≡ none) × HasUniqueKeys m

  pub lookup-insert :
      (key other : String) (value : V) (m : HashMap V)
      → lookup other (insert key value m) ≡ (if key == other then some value else lookup other m)
  unfolding lookup insert
  lookup-insert key other value [] = refl
  lookup-insert key other value ((k, old) ∷ m) =
      ground
        (arith, lookup-insert key other value m, eq_iff k key, eq_iff k other, eq_iff key other)

  pub insert-HasUniqueKeys :
      (k : String) (v : V) (m : HashMap V) → HasUniqueKeys m → HasUniqueKeys (insert k v m)
  unfolding lookup insert
  insert-HasUniqueKeys k v [] h = (refl, tt)
  insert-HasUniqueKeys k v ((i, w) ∷ m) h = elim (Bool-cases (i == k)) [
    | inl same ↦ rw same (subst (λ t. lookup t m ≡ none) ((eq_iff i k).0 same) h.0, h.1)
    | inr other ↦ rw other (
      ground (arith, lookup-insert k i v m, eq_iff k i, eq_iff i k, h.0),
      insert-HasUniqueKeys k v m h.1,
    )
  ]

  abbrev pub keep_if : (V → Bool) → Option V → Option V
  keep_if p none = none
  keep_if p (some v) = if p v then some v else none

  pub lookup-retain :
      (p : V → Bool) (k : String) (m : HashMap V)
      → HasUniqueKeys m
      → lookup k (retain p m) ≡ keep_if p (lookup k m)
  unfolding lookup retain
  lookup-retain p k [] h = refl
  lookup-retain p k ((i, w) ∷ m) h = ground (arith, lookup-retain p k m h.1, h.0, eq_iff i k)

  pub retain-HasUniqueKeys :
      (p : V → Bool) (m : HashMap V) → HasUniqueKeys m → HasUniqueKeys (retain p m)
  unfolding retain
  retain-HasUniqueKeys p [] h = tt
  retain-HasUniqueKeys p ((i, w) ∷ m) h = elim (Bool-cases (p w)) [
    | inl kept ↦ rw kept (rw (lookup-retain p i m h.1, h.0) refl, retain-HasUniqueKeys p m h.1)
    | inr gone ↦ rw gone (retain-HasUniqueKeys p m h.1)
  ]
