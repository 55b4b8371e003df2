-- ===== src/Pages/Bounds.antt =====
-- The numbers that a page of a table shows.
use native.Mathlib.Nat.{mul-le-mul_right}
use poolbrian_sms_automation.Prelude.{
  ℕ, zero, suc, ◌+◌, ◌-◌, ◌*◌, ◌≤◌, ◌<◌, ◌≡◌, ◌∙◌, min, Bool-cases, inl, inr, List, ◌==◌,
  if◌then◌else◌, length, arith,
}
use poolbrian_sms_automation.Pages.{
  drop, safe_page_size, pages_of, current_page, Page, page_at, paginated_rows,
}
use poolbrian_sms_automation.Pages.Whole.{size_bounds, pages_tight, length-take, length-drop}

-- A page number that exists, at most 100 rows, and first and last numbers that enclose the rows
-- that the page shows; where there is a row at all, the page shows one.
pub record IsSensible {ℓ} {A : Type ℓ} (p : Page A) : Type 0 where
  pub page_from : 1 ≤ p.page
  pub page_to : p.page ≤ p.pages
  pub items_to : length p.items ≤ p.page_size
  pub size_to : p.page_size ≤ 100
  pub shown : p.first_item + length p.items ≡ p.last_item + (if p.total == 0 then 0 else 1)
  pub last_to : p.last_item ≤ p.total
  pub some_shown : min 1 p.total ≤ length p.items

length-items {ℓ} :
    {A : Type ℓ} (rows : List A) (size pages current : ℕ)
    → length (page_at rows size pages current).items ≡ min size (length rows - (current - 1) * size)
length-items rows size pages current =
    length-take size (drop ((current - 1) * size) rows)
    ∙ (let e = length-drop ((current - 1) * size) rows in omega (arith, e))

page_at-IsSensible {ℓ} :
    {A : Type ℓ} (rows : List A) (size pages current : ℕ)
    → 1 ≤ size
    → size ≤ 100
    → 1 ≤ current
    → current ≤ pages
    → (1 ≤ length rows → (current - 1) * size < length rows)
    → IsSensible (page_at rows size pages current)
page_at-IsSensible rows size pages current lo hi from to tight =
    let shown = length-items rows size pages current in
    let next = step current from in
    elim (Bool-cases (length rows == 0)) [
      | inl e ↦
          let none : length rows ≡ 0 = ground arith in
          record {
            page_from = from;
            page_to = to;
            items_to = omega arith;
            size_to = hi;
            shown = rw e (omega arith);
            last_to = omega arith;
            some_shown = omega arith;
          }
      | inr e ↦
          let below = tight (ground arith) in
          record {
            page_from = from;
            page_to = to;
            items_to = omega arith;
            size_to = hi;
            shown = rw e (omega arith);
            last_to = omega arith;
            some_shown = omega arith;
          }
    ]
  where
    step : (c : ℕ) → 1 ≤ c → c * size ≡ (c - 1) * size + size
    step zero h = absurd (omega arith)
    step (suc c) h = let e : suc c - 1 ≡ c = omega arith in rw e (omega arith)

-- Whatever page and page size are asked for, the page that is shown is a sensible one.
pub paginated_rows-IsSensible {ℓ} :
    {A : Type ℓ} (rows : List A) (page page_size : ℕ)
    → IsSensible (paginated_rows rows page page_size)
unfolding paginated_rows
paginated_rows-IsSensible rows page page_size =
    let size = safe_page_size page_size in
    let pages = pages_of (length rows) size in
    let current = current_page page pages in
    let bounds = size_bounds page_size in
    page_at-IsSensible rows size pages current bounds.0 bounds.1 (omega arith) (omega arith) (λ h.
      let tight = pages_tight (length rows) size bounds.0 h in
      let before = mul-le-mul_right size (earlier current pages (omega arith)) in omega arith)
  where
    earlier : (c p : ℕ) → c ≤ p → c - 1 ≤ p - 1
    earlier c p h = omega arith
