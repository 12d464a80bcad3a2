-- ===== src/Utils/Pagination.antt =====
-- utils/pagination.py and the `Paginated` envelope of schemas/common.py. The rows are those that
-- the statement selects, in its order.
pub mod Laws
use whatsapp_api.Base.{
  ℕ, ◌+◌, ◌-◌, ◌*◌, ◌/◌, List, take, drop, length, min, max, ◌==◌, if◌then◌else◌,
}
use whatsapp_api.Base.Int.{ℤ, pos, negsuc, at_least_one}

pub record Paginated {ℓ} (A : Type ℓ) : Type ℓ where
  pub items : List A
  pub total : ℕ
  pub page : ℕ
  pub page_size : ℕ
  pub pages : ℕ

-- `max(1, math.ceil(total / page_size)) if total else 0`
unfoldable pub page_count : ℕ → ℕ → ℕ
page_count total page_size = if total == 0 then 0 else max 1 ((total + page_size - 1) / page_size)

-- `max(1, min(page_size, 500))`
unfoldable pub clamp_size : ℤ → ℕ
clamp_size (pos n) = max 1 (min n 500)
clamp_size (negsuc _) = 1

module _ {ℓ} {A : Type ℓ} where
  -- `stmt.limit(page_size).offset((page - 1) * page_size)`
  unfoldable pub page_rows : ℕ → ℕ → List A → List A
  page_rows page page_size rows = take page_size (drop ((page - 1) * page_size) rows)

  unfoldable pub paginate : List A → ℤ → ℤ → Paginated A
  unfolding page_rows page_count clamp_size
  paginate rows page page_size = record {
    items = page_rows (at_least_one page) (clamp_size page_size) rows;
    total = length rows;
    page = at_least_one page;
    page_size = clamp_size page_size;
    pages = page_count (length rows) (clamp_size page_size);
  }
