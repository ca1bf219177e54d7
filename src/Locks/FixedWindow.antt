-- ===== src/Locks/FixedWindow.antt =====
-- What the fixed-window limit lets through (`check_rate_limit` of backend/src/utils/locks.rs).
use project_hermes.Base.{
  ℕ, ◌+◌, ◌-◌, ◌*◌, ◌≤◌, ◌<◌, String, ◌≡◌, refl, sym, ap, ◌∙◌, subst, ◌⊎◌, inl, inr, Bool, true,
  false, ◌&&◌, Option, none, some, List, [], ◌∷◌, arith, str_eq, str_eq_iff, Time, secs, ltb, leb,
  if◌then◌else◌, Bool-cases, length, count_where,
}
use project_hermes.Base.Assoc.{lookup, insert, lookup-insert}
use text.Mathlib.TextPositions.{eq_refl}
use native.Mathlib.Decide.{dec_lt}
use project_hermes.Locks.{Counter, Counters, i32_max, bump, counted, check_rate_limit}
use project_hermes.RateLimit.Reference.{IsOrdered}
use project_hermes.RateLimit.Window.{allowed_times, is_within}

-- The answers to a sequence of attempts, on a database that answers.
unfoldable pub check_calls : ℕ → ℕ → List (Time × String) → Counters → List Bool
check_calls max_count window_secs [] table = []
check_calls max_count window_secs ((now, bucket) ∷ es) table =
    let (table', allowed) = check_rate_limit true now bucket max_count window_secs table in
    allowed ∷ check_calls max_count window_secs es table'

counts_own :
    (allowed : Bool) (p : Time → Bool) (now : Time) (rest : List Time)
    → count_where p (if allowed && true then now ∷ rest else rest)
      ≡ (if allowed && p now then 1 else 0) + count_where p rest
counts_own true p now rest = ground arith
counts_own false p now rest = omega arith

late_head :
    (p : Time → Bool) (counts : Bool) (now : Time) (rest : List Time)
    → p now ≡ false
    → count_where p rest ≡ 0
    → count_where p (if counts then now ∷ rest else rest) ≡ 0
late_head p true now rest out none_left = rw out none_left
late_head p false now rest out none_left = none_left

skip_head :
    (p : Time → Bool) (counts : Bool) (now : Time) (rest : List Time)
    → p now ≡ false
    → count_where p (if counts then now ∷ rest else rest) ≡ count_where p rest
skip_head p true now rest out = rw out refl
skip_head p false now rest out = refl

module _ (max_count window_secs start : ℕ) (key : String) where
  abbrev passed : List (Time × String) → Counters → ℕ
  passed es table =
      count_where (is_within start (secs window_secs))
        (allowed_times key es (check_calls max_count window_secs es table))

  abbrev after : Time → String → Counters → Counters
  after now bucket table = (check_rate_limit true now bucket max_count window_secs table).0

  counted_other :
      (bucket : String) (table : Counters) (c : Option Counter)
      → str_eq bucket key ≡ false
      → lookup key (counted bucket max_count table c).0 ≡ lookup key table
  counted_other bucket table none other = refl
  counted_other bucket table (some c) other = lookup-insert bucket key c table ∙ rw other refl

  -- An attempt on another bucket leaves the counter alone and is not counted.
  other_lookup :
      (now : Time) (bucket : String) (table : Counters)
      → str_eq bucket key ≡ false
      → lookup key (after now bucket table) ≡ lookup key table
  unfolding check_rate_limit
  other_lookup now bucket table other =
      counted_other bucket table (bump (secs window_secs) now (lookup bucket table)) other

  passed_other :
      (now : Time) (bucket : String) (es : List (Time × String)) (table : Counters)
      → str_eq bucket key ≡ false
      → passed ((now, bucket) ∷ es) table ≡ passed es (after now bucket table)
  unfolding check_calls
  passed_other now bucket es table other = ground (arith, other)

  check_own :
      (now : Time) (table : Counters) {c : Counter}
      → bump (secs window_secs) now (lookup key table) ≡ some c
      → check_rate_limit true now key max_count window_secs table
        ≡ (insert key c table, leb c.count max_count)
  unfolding check_rate_limit
  check_own now table e = ap (counted key max_count table) e

  -- The attempt itself, and what follows it.
  passed_own :
      (now : Time) (es : List (Time × String)) (table : Counters) {c : Counter}
      → bump (secs window_secs) now (lookup key table) ≡ some c
      → passed ((now, key) ∷ es) table
        ≡ (if leb c.count max_count && is_within start (secs window_secs) now then 1 else 0)
          + passed es (insert key c table)
  unfolding check_calls
  passed_own now es table {c} e =
      rw (check_own now table e, eq_refl key)
        (counts_own (leb c.count max_count) (is_within start (secs window_secs)) now _)

  outside :
      (now : Time) → start + secs window_secs ≤ now → is_within start (secs window_secs) now ≡ false
  outside now h = ground arith

  -- After the window nothing is counted.
  passed_late :
      (last : Time) (es : List (Time × String)) (table : Counters)
      → start + secs window_secs ≤ last
      → IsOrdered last es
      → passed es table ≡ 0
  unfolding check_calls
  passed_late last [] table late ordered = refl
  passed_late last ((now, bucket) ∷ es) table late ordered =
      late_head (is_within start (secs window_secs))
        ((check_rate_limit true now bucket max_count window_secs table).1 && str_eq bucket key) now
        _ (outside now (let h = ordered.0 in omega arith))
        (passed_late now es (after now bucket table) (let h = ordered.0 in omega arith) ordered.1)

  lookup_own : (c : Counter) (table : Counters) → lookup key (insert key c table) ≡ some c
  lookup_own c table = lookup-insert key key c table ∙ rw (eq_refl key) refl

  bump_inside :
      (now : Time) (c : Counter)
      → start ≤ c.window_start
      → now < start + secs window_secs
      → c.count < i32_max
      → bump (secs window_secs) now (some c)
        ≡ some (record { window_start = c.window_start; count = c.count + 1 })
  unfolding bump
  bump_inside now c inside early room = ground arith

  -- A window that starts in the period lets through what its counter leaves.
  passed_inside :
      (last : Time) (es : List (Time × String)) (table : Counters) {c : Counter}
      → lookup key table ≡ some c
      → start ≤ c.window_start
      → c.count + length es ≤ i32_max
      → IsOrdered last es
      → passed es table ≤ max_count - c.count
  unfolding check_calls
  passed_inside last [] table e inside room ordered = omega arith
  passed_inside last ((now, bucket) ∷ es) table {c} e inside room ordered =
      elim (Bool-cases (str_eq bucket key)) [
        | inr other ↦ rw (passed_other now bucket es table other) (
            passed_inside now es (after now bucket table) (other_lookup now bucket table other ∙ e)
              inside (omega arith) ordered.1)
        | inl same ↦
            subst (λ (b : String). passed ((now, b) ∷ es) table ≤ max_count - c.count)
              (sym ((str_eq_iff bucket key).0 same))
              (elim (dec_lt now (start + secs window_secs)) [
                | no late ↦
                    rw
                      (passed_late now ((now, key) ∷ es) table (omega arith)
                        (omega arith, ordered.1))
                      (omega arith)
                | yes early ↦
                    let next : Counter = record {
                      window_start = c.window_start;
                      count = c.count + 1;
                    } in
                    let ih : passed es (insert key next table) ≤ max_count - (c.count + 1) =
                      passed_inside now es (insert key next table) (lookup_own next table) inside
                        (omega arith) ordered.1 in
                    rw
                      (passed_own now es table (
                        ap (bump (secs window_secs) now) e
                        ∙ bump_inside now c inside early (omega arith)))
                      (ground (arith, ih))
              ])
      ]

  abbrev count_of : Option Counter → ℕ
  count_of none = 0
  count_of (some c) = c.count

  bump_cases :
      (now : Time) (o : Option Counter)
      → count_of o < i32_max
      → (c : Counter) × (bump (secs window_secs) now o ≡ some c)
        × (((c.window_start ≡ now) × (c.count ≡ 1)) ⊎ (c.count ≡ count_of o + 1))
  unfolding bump
  bump_cases now none room = (record { window_start = now; count = 1 }, refl, inl (refl, refl))
  bump_cases now (some c) room = elim (Bool-cases (ltb (c.window_start + secs window_secs) now)) [
    | inl reset ↦ (record { window_start = now; count = 1 }, ground arith, inl (refl, refl))
    | inr kept ↦
        (record { window_start = c.window_start; count = c.count + 1 }, ground arith, inr refl)
  ]

  -- From the start of the period on, the current window and one more contribute.
  passed_after :
      (last : Time) (es : List (Time × String)) (table : Counters)
      → start ≤ last
      → count_of (lookup key table) + length es ≤ i32_max
      → IsOrdered last es
      → passed es table ≤ max_count - count_of (lookup key table) + max_count
  unfolding check_calls
  passed_after last [] table begun room ordered = omega arith
  passed_after last ((now, bucket) ∷ es) table begun room ordered =
      elim (Bool-cases (str_eq bucket key)) [
        | inr other ↦
            let kept = other_lookup now bucket table other in
            rw (passed_other now bucket es table other) (
              rw kept at (
                passed_after now es (after now bucket table) (let h = ordered.0 in omega arith)
                  (rw kept (omega arith)) ordered.1))
        | inl same ↦
            subst
              (λ (b : String).
                passed ((now, b) ∷ es) table ≤ max_count - count_of (lookup key table) + max_count)
              (sym ((str_eq_iff bucket key).0 same))
              (let (c, e, how) = bump_cases now (lookup key table) (omega arith) in
                rw (passed_own now es table e) (elim how [
                  | inl (begins, one) ↦
                      let fresh =
                        passed_inside now es (insert key c table) (lookup_own c table)
                          (let h = ordered.0 in omega arith) (omega arith) ordered.1 in
                      ground (arith, fresh, one)
                  | inr more ↦
                      let later = rw (lookup_own c table) at (
                        passed_after now es (insert key c table) (let h = ordered.0 in omega arith)
                          (rw (lookup_own c table) (omega arith)) ordered.1) in
                      ground (arith, later, more)
                ]))
      ]

  early_head : (now : Time) → now < start → is_within start (secs window_secs) now ≡ false
  early_head now h = ground arith

  count_after :
      (now : Time) (bucket : String) (table : Counters)
      → count_of (lookup key table) < i32_max
      → count_of (lookup key (after now bucket table)) ≤ count_of (lookup key table) + 1
  count_after now bucket table room = elim (Bool-cases (str_eq bucket key)) [
    | inr other ↦ rw (other_lookup now bucket table other) (omega arith)
    | inl same ↦
        subst
          (λ (b : String).
            count_of (lookup key (after now b table)) ≤ count_of (lookup key table) + 1)
          (sym ((str_eq_iff bucket key).0 same))
          (let (c, e, how) = bump_cases now (lookup key table) room in
            let stored : lookup key (after now key table) ≡ some c =
              ap (λ (r : Counters × Bool). lookup key r.0) (check_own now table e)
              ∙ lookup_own c table in
            let counts = ap count_of stored in ground (arith, counts, how))
  ]

  passed_any :
      (last : Time) (es : List (Time × String)) (table : Counters)
      → count_of (lookup key table) + length es ≤ i32_max
      → IsOrdered last es
      → passed es table ≤ 2 * max_count
  unfolding check_calls
  passed_any last [] table room ordered = omega arith
  passed_any last ((now, bucket) ∷ es) table room ordered = elim (dec_lt now start) [
    | no begun ↦ omega (
      arith,
      passed_after start ((now, bucket) ∷ es) table (omega arith) room ((omega arith), ordered.1),
    )
    | yes early ↦
        rw
          (skip_head (is_within start (secs window_secs))
            ((check_rate_limit true now bucket max_count window_secs table).1 && str_eq bucket key)
            now _ (early_head now early))
          (passed_any now es (after now bucket table)
            (let grown = count_after now bucket table (omega arith) in omega arith) ordered.1)
  ]

-- On attempts in the order of time that the database all answers, and no more than the counter's
-- column can count, no period of the window's length, wherever it starts, lets more than twice max
-- attempts of a bucket through.
pub check_calls-allowed_times :
    (max_count window_secs start last : ℕ) (key : String) (es : List (Time × String))
    → length es ≤ i32_max
    → IsOrdered last es
    → count_where
        (is_within start (secs window_secs))
        (allowed_times key es (check_calls max_count window_secs es []))
      ≤ 2 * max_count
unfolding lookup
check_calls-allowed_times max_count window_secs start last key es room ordered =
    passed_any max_count window_secs start key last es [] (omega arith) ordered
