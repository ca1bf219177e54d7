-- ===== src/Examples/Pagination.antt =====
-- Pages of backend/src/utils/pagination.rs at concrete inputs.
use project_hermes.Base.{◌+◌, ◌-◌, ◌*◌, ◌^◌, ◌≡◌, some, arith}
use project_hermes.Base.Int.{pos, neg_part}
use project_hermes.Pagination.{resolve, at_page, size_of, resolve_overflow}

resolve_overflow_example :
    neg_part (resolve (at_page (2 ^ 62 + 1) (some (pos 2)))).offset
    ≡ 2 ^ 64 - (2 ^ 62 + 1 - 1) * size_of (some (pos 2))
resolve_overflow_example =
    resolve_overflow (2 ^ 62 + 1) (some (pos 2)) (omega arith) (omega arith) (omega arith)
