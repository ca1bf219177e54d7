-- ===== src/AppEnv/Sorting.antt =====
-- `finalize` of backend/src/utils/app_env.rs: the entries of a map, in the order of their keys.
use project_hermes.Base.{
  String, ◌≡◌, refl, sym, ◌∙◌, subst, inl, inr, true, false, none, some, List, [], ◌∷◌, arith,
  str_eq, str_eq_iff, if◌then◌else◌, Bool-cases, All, map,
}
use project_hermes.Base.Assoc.{HashMap, lookup, HasUniqueKeys}
use project_hermes.Base.TextOrder.{text_lt, text_lt_trans, text_lt_irrefl, text_lt_total}
use project_hermes.AppEnv.{insert_sorted, finalize}

abbrev pub IsAbove : String → String × String → Type 0
IsAbove k (j, w) = text_lt k j ≡ true

abbrev pub IsAscending : List (String × String) → Type 0
IsAscending [] = Unit
IsAscending ((k, v) ∷ out) = All (IsAbove k) out × IsAscending out

differ : (k j : String) → text_lt k j ≡ true → str_eq j k ≡ false
differ k j h = elim (Bool-cases (str_eq j k)) [
  | inl same ↦
      let equal = (str_eq_iff j k).0 same in
      absurd
        (let never = text_lt_irrefl k in let h' = subst (λ t. text_lt k t ≡ true) equal h in cc)
  | inr other ↦ other
]

pub IsAbove-absent :
    (k : String) (out : List (String × String)) → All (IsAbove k) out → lookup k out ≡ none
unfolding lookup
IsAbove-absent k [] h = refl
IsAbove-absent k ((j, w) ∷ out) h = rw (differ k j h.0) (IsAbove-absent k out h.1)

IsAbove-trans :
    (k j : String) (out : List (String × String))
    → text_lt k j ≡ true
    → All (IsAbove j) out
    → All (IsAbove k) out
IsAbove-trans k j [] h all = tt
IsAbove-trans k j ((i, w) ∷ out) h all =
    (text_lt_trans k j i h all.0, IsAbove-trans k j out h all.1)

IsAbove-insert_sorted :
    (j k v : String) (out : List (String × String))
    → text_lt j k ≡ true
    → All (IsAbove j) out
    → All (IsAbove j) (insert_sorted (k, v) out)
IsAbove-insert_sorted j k v [] h all = (h, tt)
IsAbove-insert_sorted j k v ((i, w) ∷ out) h all = elim (Bool-cases (text_lt i k)) [
  | inl after ↦ rw after (all.0, IsAbove-insert_sorted j k v out h all.1)
  | inr before ↦ rw before (h, all)
]

insert_sorted-IsAscending :
    (k v : String) (out : List (String × String))
    → lookup k out ≡ none
    → IsAscending out
    → IsAscending (insert_sorted (k, v) out)
unfolding lookup
insert_sorted-IsAscending k v [] absent asc = (tt, tt)
insert_sorted-IsAscending k v ((j, w) ∷ out) absent asc = elim (Bool-cases (str_eq j k)) [
  | inl same ↦ absurd (let absent' = rw same at absent in cc)
  | inr other ↦ elim (Bool-cases (text_lt j k)) [
    | inl after ↦ rw after (
      IsAbove-insert_sorted j k v out after asc.0,
      insert_sorted-IsAscending k v out (rw other at absent) asc.1,
    )
    | inr before ↦ rw before (elim (text_lt_total j k before) [
      | inl equal ↦ absurd (let same = (str_eq_iff j k).1 equal in cc)
      | inr less ↦ ((less, IsAbove-trans k j out less asc.0), asc)
    ])
  ]
]

lookup-insert_sorted :
    (key k v : String) (out : List (String × String))
    → lookup k out ≡ none
    → lookup key (insert_sorted (k, v) out) ≡ (if str_eq k key then some v else lookup key out)
unfolding lookup
lookup-insert_sorted key k v [] absent = refl
lookup-insert_sorted key k v ((j, w) ∷ out) absent =
    ground
      (arith, str_eq_iff j k, str_eq_iff j key, str_eq_iff k key, lookup-insert_sorted key k v out)

pub lookup-finalize :
    (key : String) (map : HashMap String)
    → HasUniqueKeys map
    → lookup key (finalize map) ≡ lookup key map
unfolding finalize lookup
lookup-finalize key [] h = refl
lookup-finalize key ((k, v) ∷ map) h =
    lookup-insert_sorted key k v (finalize map) (lookup-finalize k map h.1 ∙ h.0)
    ∙ rw (lookup-finalize key map h.1) refl

pub finalize-IsAscending : (map : HashMap String) → HasUniqueKeys map → IsAscending (finalize map)
unfolding finalize
finalize-IsAscending [] h = tt
finalize-IsAscending ((k, v) ∷ map) h =
    insert_sorted-IsAscending k v (finalize map) (lookup-finalize k map h.1 ∙ h.0)
      (finalize-IsAscending map h.1)

some_value : {v w : String} → some v ≡ some w → v ≡ w
some_value e = cc

head_lookup : (k v : String) (out : List (String × String)) → lookup k ((k, v) ∷ out) ≡ some v
unfolding lookup
head_lookup k v out = rw ((str_eq_iff k k).1 refl) refl

later_lookup :
    (k j v : String) (out : List (String × String))
    → str_eq j k ≡ false
    → lookup k ((j, v) ∷ out) ≡ lookup k out
unfolding lookup
later_lookup k j v out other = rw other refl

abbrev Agree : List (String × String) → List (String × String) → Type 0
Agree xs ys = (key : String) → lookup key xs ≡ lookup key ys

not_before :
    (k j v : String) (xs ys : List (String × String))
    → (w : String) → IsAscending ((j, w) ∷ ys)
    → Agree ((k, v) ∷ xs) ((j, w) ∷ ys)
    → text_lt k j ≡ true
    → ⊥
not_before k j v xs ys w asc agree less =
    let here = sym (head_lookup k v xs) ∙ agree k in
    let gone = IsAbove-absent k ((j, w) ∷ ys) (less, IsAbove-trans k j ys less asc.0) in
    absurd (let clash = here ∙ gone in cc)

tails-Agree :
    (k v w : String) (xs ys : List (String × String))
    → All (IsAbove k) xs
    → All (IsAbove k) ys
    → Agree ((k, v) ∷ xs) ((k, w) ∷ ys)
    → Agree xs ys
tails-Agree k v w xs ys ax ay agree key = elim (Bool-cases (str_eq k key)) [
  | inl same ↦
      let equal = (str_eq_iff k key).0 same in
      subst (λ t. lookup t xs ≡ lookup t ys) equal
        (IsAbove-absent k xs ax ∙ sym (IsAbove-absent k ys ay))
  | inr other ↦ sym (later_lookup key k v xs other) ∙ agree key ∙ later_lookup key k w ys other
]

nil_lookup : (k : String) → lookup {V = String} k [] ≡ none
unfolding lookup
nil_lookup k = refl

-- Ascending lists that agree on every key are one list.
IsAscending-eq :
    (xs ys : List (String × String)) → IsAscending xs → IsAscending ys → Agree xs ys → xs ≡ ys
IsAscending-eq [] [] ax ay agree = refl
IsAscending-eq [] ((j, w) ∷ ys) ax ay agree =
    absurd (let clash = sym (nil_lookup j) ∙ agree j ∙ head_lookup j w ys in cc)
IsAscending-eq ((k, v) ∷ xs) [] ax ay agree =
    absurd (let clash = sym (nil_lookup k) ∙ sym (agree k) ∙ head_lookup k v xs in cc)
IsAscending-eq ((k, v) ∷ xs) ((j, w) ∷ ys) ax ay agree = elim (Bool-cases (text_lt k j)) [
  | inl less ↦ absurd (not_before k j v xs ys w ay agree less)
  | inr not_less ↦ elim (text_lt_total k j not_less) [
    | inr more ↦ absurd (not_before j k w ys xs v ax (λ key. sym (agree key)) more)
    | inl equal ↦
        let agree' = subst (λ t. Agree ((k, v) ∷ xs) ((t, w) ∷ ys)) (sym equal) agree in
        let ay' = subst (λ t. IsAscending ((t, w) ∷ ys)) (sym equal) ay in
        let value = some_value (sym (head_lookup k v xs) ∙ agree' k ∙ head_lookup k w ys) in
        let rest = IsAscending-eq xs ys ax.1 ay'.1 (tails-Agree k v w xs ys ax.0 ay'.0 agree') in
        cc (equal, value, rest)
  ]
]

-- The environment does not depend on the order in which a hash map yields its entries: two orders
-- of the same entries, without a key twice, give the same list.
pub finalize-order :
    (m n : HashMap String)
    → HasUniqueKeys m
    → HasUniqueKeys n
    → ((key : String) → lookup key m ≡ lookup key n)
    → finalize m ≡ finalize n
finalize-order m n hm hn agree =
    IsAscending-eq (finalize m) (finalize n) (finalize-IsAscending m hm) (finalize-IsAscending n hn)
      (λ key. lookup-finalize key m hm ∙ agree key ∙ sym (lookup-finalize key n hn))
