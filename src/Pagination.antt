-- ===== src/Pagination.antt =====
-- internal/pkg/pagination/pagination.go. The page count goes through float64, so the rounded-up
-- quotient of two float64s is the parameter `ceil_quotient`.
pub mod Pages
use go_hermes.Base.{if◌then◌else◌}
use go_hermes.Base.Int.{ℤ, pos, ltb_ℤ, eq_ℤ}
use go_hermes.Base.Int64.{sub64, mul64}
use go_hermes.Json.{Json, num, obj, field, end}

pub record Params : Type 0 where
  pub page : ℤ
  pub limit : ℤ

unfoldable pub new_params : ℤ → ℤ → Params
new_params page limit = record {
  page = if ltb_ℤ page (pos 1) then pos 1 else page;
  limit =
      let raised = if ltb_ℤ limit (pos 1) then pos 10 else limit in
      if ltb_ℤ (pos 100) raised then pos 100 else raised;
}

unfoldable pub offset : Params → ℤ
unfolding sub64 mul64
offset p = mul64 (sub64 p.page (pos 1)) p.limit

unfoldable pub total_pages : (ℤ → ℤ → ℤ) → ℤ → Params → ℤ
total_pages ceil_quotient total p =
    if eq_ℤ total (pos 0) then pos 0 else ceil_quotient total p.limit

unfoldable pub meta : (ℤ → ℤ → ℤ) → ℤ → Params → Json
unfolding total_pages
meta ceil_quotient total p = obj (
    field "page" (num p.page) (
      field "limit" (num p.limit) (
        field "total" (num total)
          (field "total_pages" (num (total_pages ceil_quotient total p)) end))))
