-- ===== src/Schemas/Pagination.antt =====
-- app/schemas/common.py: `PaginationParams` and `PaginatedResponse`; app/utils/pagination.py; and the query
-- of a page, `query.order_by(...).offset(...).limit(...)`, over the rows that its `where` keeps. The order
-- of the rows is the database's, and a parameter.
use financial_notification_p.Prelude.{
  ℕ, ◌+◌, ◌-◌, ◌*◌, ◌/◌, Bool, ◌&&◌, List, leb, ltb, length, take, drop, keep, if◌then◌else◌,
}
pub mod Pages

pub record PaginationParams : Type 0 where
  pub page : ℕ
  pub page_size : ℕ

-- `Field(ge=1)` and `Field(ge=1, le=100)`
unfoldable pub is_valid : PaginationParams → Bool
is_valid p = leb 1 p.page && (leb 1 p.page_size && leb p.page_size 100)

abbrev pub offset : PaginationParams → ℕ
offset p = (p.page - 1) * p.page_size

pub record PaginatedResponse {ℓ} (A : Type ℓ) : Type ℓ where
  pub items : List A
  pub total : ℕ
  pub page : ℕ
  pub page_size : ℕ
  pub pages : ℕ

module _ {ℓ} {A : Type ℓ} where
  -- `PaginatedResponse.build`, which divides by a size that is at least 1
  unfoldable pub build : List A → ℕ → ℕ → ℕ → PaginatedResponse A
  build items total page page_size = record {
    items = items;
    total = total;
    page = page;
    page_size = page_size;
    pages = (total + page_size - 1) / page_size;
  }

  -- `paginate` of utils/pagination.py
  unfoldable pub paginate : List A → ℕ → ℕ → ℕ → PaginatedResponse A
  paginate items total page page_size = record {
    items = items;
    total = total;
    page = page;
    page_size = page_size;
    pages = if ltb 0 total then (total + page_size - 1) / page_size else 0;
  }

  -- the rows of one page, out of those that pass the filters
  unfoldable pub query_page : (List A → List A) → (A → Bool) → PaginationParams → List A → List A
  query_page order filters p rows = take p.page_size (drop (offset p) (order (keep filters rows)))

  -- what a listing answers with
  unfoldable pub list_page :
      (List A → List A) → (A → Bool) → PaginationParams → List A → PaginatedResponse A
  unfolding query_page build
  list_page order filters p rows =
      build (query_page order filters p rows) (length (keep filters rows)) p.page p.page_size
