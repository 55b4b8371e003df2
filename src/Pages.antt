-- ===== src/Pages.antt =====
-- The pages of a table: `_paginated_rows` of app/repositories/dashboard.py, and the same
-- computation in `service_notice_candidate_page` of app/repositories/service_notices.py.
pub mod Whole
pub mod Bounds
pub mod Search
use poolbrian_sms_automation.Prelude.{
  ℕ, zero, suc, ◌+◌, ◌-◌, ◌*◌, ◌/◌, min, max, Bool, List, [], ◌∷◌, ◌==◌, if◌then◌else◌, length,
  take,
}

-- `OFFSET n`.
abbrev pub drop {ℓ} : {A : Type ℓ} → ℕ → List A → List A
drop zero xs = xs
drop (suc n) [] = []
drop (suc n) (x ∷ xs) = drop n xs

abbrev pub safe_page_size : ℕ → ℕ
safe_page_size n = min (max n 1) 100

-- `max(1, (total + safe_page_size - 1) // safe_page_size)`.
abbrev pub pages_of : ℕ → ℕ → ℕ
pages_of total size = max 1 ((total + size - 1) / size)

abbrev pub current_page : ℕ → ℕ → ℕ
current_page page pages = min (max page 1) pages

pub record Page {ℓ} (A : Type ℓ) : Type ℓ where
  pub items : List A
  pub page : ℕ
  pub pages : ℕ
  pub page_size : ℕ
  pub total : ℕ
  pub first_item : ℕ
  pub last_item : ℕ

-- Page `current` of `pages`, with `size` rows a page.
abbrev pub page_at {ℓ} : {A : Type ℓ} → List A → ℕ → ℕ → ℕ → Page A
page_at rows size pages current = record {
  items = take size (drop ((current - 1) * size) rows);
  page = current;
  pages = pages;
  page_size = size;
  total = length rows;
  first_item = if length rows == 0 then 0 else (current - 1) * size + 1;
  last_item = min (current * size) (length rows);
}

-- `rows` are those that the query finds, in its order. A page below 1 is read as 1, as is 0.
unfoldable pub paginated_rows {ℓ} : {A : Type ℓ} → List A → ℕ → ℕ → Page A
paginated_rows rows page page_size =
    let size = safe_page_size page_size in
    let pages = pages_of (length rows) size in page_at rows size pages (current_page page pages)
