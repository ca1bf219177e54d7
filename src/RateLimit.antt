-- ===== src/RateLimit.antt =====
-- backend/src/utils/rate_limit.rs: the in-memory sliding-window limiter. `check` reads the clock
-- once; its time is the argument `now`. `duration_since` is 0 for a later instant, as `-` on ℕ is.
pub mod Reference
pub mod Window
use project_hermes.Base.{
  ℕ, zero, suc, ◌+◌, ◌-◌, ◌*◌, ◌/◌, ◌%◌, ◌^◌, ◌≤◌, ◌<◌, min, max, String, ◌≡◌, refl, sym, ap, ◌∙◌,
  subst, ◌≢◌, ◌↔◌, ◌⊎◌, inl, inr, Bool, true, false, ◌&&◌, ◌||◌, not, Option, none, some, List, [],
  ◌∷◌, ◌++◌, arith, str_eq, str_eq_iff, Uuid, Time, secs, ltb, leb, ◌==◌, if◌then◌else◌, ltb→lt,
  lt→ltb, leb→le, ==_iff, tests, Bool-cases, Option-cases, length, select, count_where, any, find,
  update_where, delete_where, All, map, All-append, All-if, All-update_where, All-delete_where,
  All-find,
}
use project_hermes.Base.Assoc.{HashMap, lookup, insert, retain}

pub record RateLimiter : Type 0 where
  pub inner : HashMap (List Time)
  pub max_attempts : ℕ
  pub window : Time

unfoldable pub new : ℕ → Time → RateLimiter
new max_attempts window = record { inner = []; max_attempts = max_attempts; window = window }

abbrev pub is_fresh : Time → Time → Time → Bool
is_fresh window now t = ltb (now - t) window

-- The opportunistic sweep of keys whose hits have all left the window.
unfoldable pub sweep : Time → Time → HashMap (List Time) → HashMap (List Time)
sweep window now m =
    if ltb 10000 (length m) then retain (λ hits. any (is_fresh window now) hits) m else m

abbrev pub or_default : Option (List Time) → List Time
or_default none = []
or_default (some hits) = hits

-- The new limiter, and whether the attempt is allowed.
unfoldable pub check : Time → String → RateLimiter → RateLimiter × Bool
check now key limiter =
    let m = sweep limiter.window now limiter.inner in
    let hits = select (is_fresh limiter.window now) (or_default (lookup key m)) in
    if leb limiter.max_attempts (length hits)
    then (record limiter { inner = insert key hits m }, false)
    else (record limiter { inner = insert key (hits ++ now ∷ []) m }, true)

-- The answers to a sequence of attempts.
unfoldable pub check_all : List (Time × String) → RateLimiter → List Bool
check_all [] limiter = []
check_all ((now, key) ∷ rest) limiter =
    let (limiter', allowed) = check now key limiter in allowed ∷ check_all rest limiter'
