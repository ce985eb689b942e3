-- ===== src/Models/Query.antt =====
-- src/seerflow/models/query.py: time ranges, query limits and pages.
use seerflow.Base.{
  Bool, List, Option, if◌then◌else◌, length, ltb, none, some, ℕ, ◌&&◌, ◌*◌, ◌+◌, ◌-◌,
}

pub record TimeRange : Type 0 where
  pub start_ns : ℕ
  pub end_ns : ℕ

-- `TimeRange(start_ns, end_ns)`; `none` is the ValueError of `__post_init__`.
unfoldable pub time_range : ℕ → ℕ → Option TimeRange
time_range start_ns end_ns =
    if ltb end_ns start_ns then none else some (record { start_ns = start_ns; end_ns = end_ns })

pub record Page {ℓ} (T : Type ℓ) : Type ℓ where
  pub items : List T
  pub total : ℕ
  pub page : ℕ
  pub limit : ℕ

-- `page` is at least 1, so `page - 1` is exact.
unfoldable pub has_next {ℓ} : {T : Type ℓ} → Page T → Bool
has_next p = ltb 0 (length p.items) && ltb ((p.page - 1) * p.limit + length p.items) p.total
