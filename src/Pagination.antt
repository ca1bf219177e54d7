-- ===== src/Pagination.antt =====
-- backend/src/utils/pagination.rs: the page, the page size and the offset of a list request. The
-- numbers are i64; the offset's product wraps, as it does in a release build.
use project_hermes.Base.{
  ℕ, zero, suc, ◌+◌, ◌-◌, ◌*◌, ◌%◌, ◌^◌, ◌≤◌, ◌<◌, ◌≡◌, refl, ap, ◌∙◌, Option, none, some, arith,
}
use native.Mathlib.Nat.{mul-le-mul}
use project_hermes.Base.Int.{unwrap_or, max_ℤ, clamp, ℤ, pos, pos_part, neg_part, ◌≤ℤ◌, to_i64}

abbrev pub default_page_size : ℤ
default_page_size = pos 20

abbrev pub max_page_size : ℤ
max_page_size = pos 100

pub record PaginationParams : Type 0 where
  pub page : Option ℤ
  pub page_size : Option ℤ

-- `PaginationParams::default()`
abbrev pub default : PaginationParams
default = record { page = none; page_size = none }

pub record Resolved : Type 0 where
  pub page : ℤ
  pub page_size : ℤ
  pub offset : ℤ

-- The page is at least 1 and the page size is positive, so the product is of numbers.
unfoldable pub resolve : PaginationParams → Resolved
resolve p =
    let page = max_ℤ (unwrap_or (pos 1) p.page) (pos 1) in
    let page_size = clamp (pos 1) max_page_size (unwrap_or default_page_size p.page_size) in
    record {
      page = page;
      page_size = page_size;
      offset = to_i64 ((pos_part page - 1) * pos_part page_size % 2 ^ 64);
    }

-- Whatever the client sends, the page is at least 1 and its size lies between 1 and 100.
pub resolve_bounds :
    (p : PaginationParams)
    → (pos 1 ≤ℤ (resolve p).page)
      × (pos 1 ≤ℤ (resolve p).page_size)
      × ((resolve p).page_size ≤ℤ pos 100)
unfolding resolve
resolve_bounds p = ground arith

abbrev pub at_page : ℕ → Option ℤ → PaginationParams
at_page page page_size = record { page = some (pos page); page_size = page_size }

-- The size of the pages that a request gets.
abbrev pub size_of : Option ℤ → ℕ
size_of page_size = pos_part (clamp (pos 1) max_page_size (unwrap_or default_page_size page_size))

size_of-le : (page_size : Option ℤ) → size_of page_size ≤ 100
size_of-le page_size = ground arith

resolve-offset :
    (page : ℕ) (page_size : Option ℤ)
    → 1 ≤ page
    → (resolve (at_page page page_size)).offset ≡ to_i64 ((page - 1) * size_of page_size % 2 ^ 64)
unfolding resolve
resolve-offset page page_size low =
    let same : pos_part (max_ℤ (pos page) (pos 1)) ≡ page = ground arith in rw same refl

small_product : (n s : ℕ) → n ≤ 2 ^ 56 → s ≤ 100 → n * s < 2 ^ 63
small_product n s hn hs = let h : n * s ≤ 2 ^ 56 * 100 = mul-le-mul hn hs in omega arith

exact_offset : (x : ℕ) → x < 2 ^ 63 → to_i64 (x % 2 ^ 64) ≡ pos x
unfolding to_i64
exact_offset x h = ground arith

wrapped_offset : (x : ℕ) → 2 ^ 63 ≤ x → x < 2 ^ 64 → neg_part (to_i64 (x % 2 ^ 64)) ≡ 2 ^ 64 - x
unfolding to_i64
wrapped_offset x big small = ground arith

next_product : (page s : ℕ) → 1 ≤ page → page * s ≡ (page - 1) * s + s
next_product zero s low = elim low [ ]
next_product (suc n) s low = let e : suc n - 1 ≡ n = omega arith in rw e (omega arith)

-- Up to page 2^56 the offset is the number of rows on the pages before, so the next page begins
-- where a page ends.
resolve_contiguous :
    (page : ℕ) (page_size : Option ℤ)
    → 1 ≤ page
    → page ≤ 2 ^ 56
    → ((resolve (at_page page page_size)).offset ≡ pos ((page - 1) * size_of page_size))
      × ((resolve (at_page (page + 1) page_size)).offset
          ≡ pos ((page - 1) * size_of page_size + size_of page_size))
resolve_contiguous page page_size low high =
    let s = size_of page_size in
    let this = small_product (page - 1) s (omega arith) (size_of-le page_size) in
    let next = small_product page s high (size_of-le page_size) in
    let more : page * s ≡ (page - 1) * s + s = next_product page s low in
    let last_of : page + 1 - 1 ≡ page = omega arith in
    (
      resolve-offset page page_size low ∙ exact_offset ((page - 1) * s) this,
      resolve-offset (page + 1) page_size (omega arith)
          ∙ rw last_of (exact_offset (page * s) next ∙ ap pos more),
    )

-- A page number of the client for which the product is at least 2^63 and less than 2^64 gives a
-- negative offset, the product less 2^64.
pub resolve_overflow :
    (page : ℕ) (page_size : Option ℤ)
    → 1 ≤ page
    → 2 ^ 63 ≤ (page - 1) * size_of page_size
    → (page - 1) * size_of page_size < 2 ^ 64
    → neg_part (resolve (at_page page page_size)).offset ≡ 2 ^ 64 - (page - 1) * size_of page_size
resolve_overflow page page_size low big small =
    ap neg_part (resolve-offset page page_size low)
    ∙ wrapped_offset ((page - 1) * size_of page_size) big small
