-- ===== src/RateLimit/Reference.antt =====
-- The limiter of backend/src/utils/rate_limit.rs against one that forgets nothing.
use project_hermes.Base.{
  ℕ, ◌≤◌, String, ◌≡◌, refl, sym, ap, ◌∙◌, subst, inl, inr, Bool, true, false, Option, none, some,
  List, [], ◌∷◌, ◌++◌, arith, str_eq, str_eq_iff, Time, ltb, leb, if◌then◌else◌, Bool-cases, length,
  select, count_where, any,
}
use mathlib.Core.Path.{ap₂}
use text.Mathlib.TextPositions.{eq_refl}
use mathlib.Core.List.{append-nil}
use project_hermes.Base.Assoc.{
  lookup, insert, lookup-insert, lookup-retain, keep_if, HasUniqueKeys, insert-HasUniqueKeys,
  retain-HasUniqueKeys,
}
use project_hermes.RateLimit.{RateLimiter, new, is_fresh, sweep, or_default, check, check_all}

-- The allowed attempts of a key, the oldest first.
abbrev pub attempts_of : String → List (Time × String) → List Time
attempts_of key [] = []
attempts_of key ((t, k) ∷ history) =
    let rest = attempts_of key history in if str_eq k key then t ∷ rest else rest

-- An attempt is allowed if fewer than `max_attempts` of the key were allowed in the last `window`.
abbrev pub allows : ℕ → Time → Time → String → List (Time × String) → Bool
allows max_attempts window now key history =
    ltb (count_where (is_fresh window now) (attempts_of key history)) max_attempts

-- The answers of the reference limiter, which keeps the whole history of allowed attempts.
unfoldable pub reference : ℕ → Time → List (Time × String) → List (Time × String) → List Bool
reference max_attempts window [] history = []
reference max_attempts window ((now, key) ∷ rest) history =
    let allowed = allows max_attempts window now key history in
    let history' = if allowed then history ++ (now, key) ∷ [] else history in
    allowed ∷ reference max_attempts window rest history'

-- The times of the attempts never fall.
abbrev pub IsOrdered : Time → List (Time × String) → Type 0
IsOrdered last [] = Unit
IsOrdered last ((now, key) ∷ rest) = (last ≤ now) × IsOrdered now rest

length-select {ℓ} :
    {A : Type ℓ} (p : A → Bool) (xs : List A) → length (select p xs) ≡ count_where p xs
length-select p [] = refl
length-select p (x ∷ xs) = ground (arith, length-select p xs)

select-append {ℓ} :
    {A : Type ℓ} (p : A → Bool) (xs ys : List A) → select p (xs ++ ys) ≡ select p xs ++ select p ys
select-append p [] ys = refl
select-append p (x ∷ xs) ys = elim (Bool-cases (p x)) [
  | inl t ↦ rw (t, select-append p xs ys) refl
  | inr f ↦ rw (f, select-append p xs ys) refl
]

-- What is fresh later is fresh among what is fresh now.
select_later :
    (window now later : Time) (hits : List Time)
    → now ≤ later
    → select (is_fresh window later) (select (is_fresh window now) hits)
      ≡ select (is_fresh window later) hits
select_later window now later [] h = refl
select_later window now later (t ∷ ts) h = ground (arith, select_later window now later ts h)

attempts_of-append :
    (key : String) (xs ys : List (Time × String))
    → attempts_of key (xs ++ ys) ≡ attempts_of key xs ++ attempts_of key ys
attempts_of-append key [] ys = refl
attempts_of-append key ((t, k) ∷ xs) ys = elim (Bool-cases (str_eq k key)) [
  | inl s ↦ rw (s, attempts_of-append key xs ys) refl
  | inr f ↦ rw (f, attempts_of-append key xs ys) refl
]

none_fresh :
    (window now later : Time) (hits : List Time)
    → now ≤ later
    → any (is_fresh window now) hits ≡ false
    → [] ≡ select (is_fresh window later) hits
none_fresh window now later [] order h = refl
none_fresh window now later (t ∷ ts) order h =
    ground (arith, none_fresh window now later ts order (ground arith))

abbrev hits_at : String → List (String × List Time) → List Time
hits_at key m = or_default (lookup key m)

-- From `last` on, the stored hits of each key show the same fresh attempts as the history.
record Agrees (window last : Time) (m : List (String × List Time)) (history : List (Time × String))
    : Type 0 where
  unique : HasUniqueKeys m
  same :
      (key : String) (later : Time)
      → last ≤ later
      → select (is_fresh window later) (hits_at key m)
        ≡ select (is_fresh window later) (attempts_of key history)

swept_hits :
    (window now later : Time) (found : Option (List Time))
    → now ≤ later
    → select (is_fresh window later) (or_default (keep_if (any (is_fresh window now)) found))
      ≡ select (is_fresh window later) (or_default found)
swept_hits window now later none order = refl
swept_hits window now later (some hits) order = elim (Bool-cases (any (is_fresh window now) hits)) [
  | inl live ↦ rw live refl
  | inr dead ↦ rw dead (none_fresh window now later hits order dead)
]

sweep-Agrees :
    {window last : Time} (now : Time) {m : List (String × List Time)}
    {history : List (Time × String)}
    → Agrees window last m history
    → last ≤ now
    → Agrees window now (sweep window now m) history
unfolding sweep
sweep-Agrees {window} {last} now {m} {history} a order = elim (Bool-cases (ltb 10000 (length m))) [
  | inl large ↦ rw large (record {
    unique = retain-HasUniqueKeys _ m a.unique;
    same = λ key later le.
        rw (lookup-retain (any (is_fresh window now)) key m a.unique)
          (swept_hits window now later (lookup key m) le ∙ a.same key later (omega arith));
  })
  | inr small ↦
      rw small (record { unique = a.unique; same = λ key later le. a.same key later (omega arith) })
]

insert-Agrees :
    {window now : Time} (key : String) {m : List (String × List Time)}
    {history history' : List (Time × String)} (hits : List Time)
    → Agrees window now m history
    → ((later : Time)
        → now ≤ later
        → select (is_fresh window later) hits
          ≡ select (is_fresh window later) (attempts_of key history'))
    → ((k : String) → str_eq key k ≡ false → attempts_of k history' ≡ attempts_of k history)
    → Agrees window now (insert key hits m) history'
insert-Agrees {window} {now} key {m} {history} {history'} hits a own others = record {
  unique = insert-HasUniqueKeys key hits m a.unique;
  same = λ k later le. rw (lookup-insert key k hits m) (elim (Bool-cases (str_eq key k)) [
    | inl e ↦ rw e (
        subst
          (λ (j : String).
            select (is_fresh window later) hits
            ≡ select (is_fresh window later) (attempts_of j history'))
          ((str_eq_iff key k).0 e) (own later le))
    | inr f ↦ rw (f, others k f) (a.same k later le)
  ]);
}

pub attempts_own :
    (now : Time) (key k : String) (history : List (Time × String))
    → str_eq key k ≡ true
    → attempts_of k (history ++ (now, key) ∷ []) ≡ attempts_of k history ++ now ∷ []
attempts_own now key k history s = attempts_of-append k history ((now, key) ∷ []) ∙ rw s refl

pub attempts_other :
    (now : Time) (key k : String) (history : List (Time × String))
    → str_eq key k ≡ false
    → attempts_of k (history ++ (now, key) ∷ []) ≡ attempts_of k history
attempts_other now key k history f =
    attempts_of-append k history ((now, key) ∷ []) ∙ rw f (append-nil _)

module _ (limiter : RateLimiter) {last : Time} (now : Time) (key : String)
    {history : List (Time × String)} (a : Agrees limiter.window last limiter.inner history)
    (order : last ≤ now) where
  swept : List (String × List Time)
  swept = sweep limiter.window now limiter.inner

  hits : List Time
  hits = select (is_fresh limiter.window now) (hits_at key swept)

  swept-Agrees : Agrees limiter.window now swept history
  unfolding swept
  swept-Agrees = sweep-Agrees now a order

  length-hits : length hits ≡ count_where (is_fresh limiter.window now) (attempts_of key history)
  unfolding hits
  length-hits =
      ap length (swept-Agrees.same key now (omega arith))
      ∙ length-select (is_fresh limiter.window now) (attempts_of key history)

  answer_same :
      (check now key limiter).1 ≡ allows limiter.max_attempts limiter.window now key history
  unfolding check hits swept
  answer_same = ground (arith, length-hits)

  hits_later :
      (later : Time)
      → now ≤ later
      → select (is_fresh limiter.window later) hits
        ≡ select (is_fresh limiter.window later) (attempts_of key history)
  unfolding hits
  hits_later later le =
      select_later limiter.window now later (hits_at key swept) le ∙ swept-Agrees.same key later le

  next-Agrees :
      Agrees limiter.window now
        (check now key limiter).0.inner
        (if (check now key limiter).1 then history ++ (now, key) ∷ [] else history)
  unfolding check swept hits
  next-Agrees = elim (Bool-cases (leb limiter.max_attempts (length hits))) [
    | inl full ↦ rw full (insert-Agrees key hits swept-Agrees hits_later (λ k f. refl))
    | inr room ↦ rw room (
        insert-Agrees key (hits ++ now ∷ []) swept-Agrees
          (λ later le.
            select-append (is_fresh limiter.window later) hits (now ∷ [])
            ∙ ap (λ (l : List Time). l ++ select (is_fresh limiter.window later) (now ∷ []))
                (hits_later later le)
            ∙ sym
                (select-append (is_fresh limiter.window later) (attempts_of key history) (now ∷ []))
            ∙ ap (select (is_fresh limiter.window later))
                (sym (attempts_own now key key history (eq_refl key))))
          (λ k f. attempts_other now key k history f))
  ]

  window-check : (check now key limiter).0.window ≡ limiter.window
  unfolding check
  window-check = ground arith

  max_attempts-check : (check now key limiter).0.max_attempts ≡ limiter.max_attempts
  unfolding check
  max_attempts-check = ground arith

reference_cong :
    {m m' : ℕ} {w w' : Time} {b b' : Bool} (es yes_history no_history : List (Time × String))
    → m ≡ m'
    → w ≡ w'
    → b ≡ b'
    → reference m w es (if b then yes_history else no_history)
      ≡ reference m' w' es (if b' then yes_history else no_history)
reference_cong es yes_history no_history p q r = cc

check_all-reference_from :
    (es : List (Time × String)) (limiter : RateLimiter) {last : Time}
    {history : List (Time × String)}
    → Agrees limiter.window last limiter.inner history
    → IsOrdered last es
    → check_all es limiter ≡ reference limiter.max_attempts limiter.window es history
unfolding check_all reference
check_all-reference_from [] limiter a ordered = refl
check_all-reference_from ((now, key) ∷ rest) limiter {last} {history} a ordered =
    let step = check now key limiter in
    let history' = if step.1 then history ++ (now, key) ∷ [] else history in
    let a' : Agrees step.0.window now step.0.inner history' =
      subst (λ (w : Time). Agrees w now step.0.inner history')
        (sym (window-check limiter now key a ordered.0))
        (next-Agrees limiter now key a ordered.0) in
    let ih : check_all rest step.0 ≡ reference step.0.max_attempts step.0.window rest history' =
      check_all-reference_from rest step.0 a' ordered.1 in
    let answer = answer_same limiter now key a ordered.0 in
    ap₂ ◌∷◌ answer (
      ih
      ∙ reference_cong rest _ _ (max_attempts-check limiter now key a ordered.0)
          (window-check limiter now key a ordered.0) answer)

-- On attempts in the order of time, whatever their keys, the limiter with its pruning and its sweep
-- answers exactly as one that keeps every allowed attempt and counts those of the key within the
-- last window.
pub check_all-reference :
    (max_attempts : ℕ) (window start : Time) (es : List (Time × String))
    → IsOrdered start es
    → check_all es (new max_attempts window) ≡ reference max_attempts window es []
unfolding new lookup
check_all-reference max_attempts window start es ordered =
    check_all-reference_from es (new max_attempts window)
      (record { unique = tt; same = λ key later le. refl }) ordered
