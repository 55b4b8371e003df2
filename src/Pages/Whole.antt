-- ===== src/Pages/Whole.antt =====
-- The pages of a table are the whole of it.
use native.Mathlib.Nat.{lt-div-mul-add, div-mul-le_self, mul-le-mul_right}
use poolbrian_sms_automation.Prelude.{
  ℕ, zero, suc, ◌+◌, ◌-◌, ◌*◌, ◌/◌, ◌≤◌, ◌<◌, ◌≡◌, refl, sym, ap, ◌∙◌, min, max, List, [], ◌∷◌,
  ◌++◌, length, take, arith,
}
use poolbrian_sms_automation.Pages.{
  drop, safe_page_size, pages_of, current_page, page_at, paginated_rows,
}

pub size_bounds : (n : ℕ) → (1 ≤ safe_page_size n) × (safe_page_size n ≤ 100)
size_bounds n = ground arith

-- The pages have room for all rows, and the last page is not empty where there is a row.
pages_cover : (total size : ℕ) → 1 ≤ size → total ≤ pages_of total size * size
pages_cover total size h =
    let enough = lt-div-mul-add {a = total + size - 1} {b = size} (omega arith) in
    let more = mul-le-mul_right size (below (((total + size - 1) / size))) in omega arith
  where
    below : (q : ℕ) → q ≤ max 1 q
    below q = omega arith

pub pages_tight : (total size : ℕ) → 1 ≤ size → 1 ≤ total → (pages_of total size - 1) * size < total
pages_tight total size h k =
    tight ((total + size - 1) / size) (div-mul-le_self (total + size - 1) size)
  where
    tight : (q : ℕ) → q * size ≤ total + size - 1 → (max 1 q - 1) * size < total
    tight zero few =
        let none_before : max 1 zero - 1 ≡ 0 = omega arith in rw none_before (omega arith)
    tight (suc q) few =
        let before : max 1 (suc q) - 1 ≡ q = omega arith in
        rw before (let next : suc q * size ≡ q * size + size = omega arith in omega arith)

pub length-drop {ℓ} : {A : Type ℓ} (n : ℕ) (xs : List A) → length (drop n xs) ≡ length xs - n
length-drop zero xs = omega arith
length-drop (suc n) [] = omega arith
length-drop (suc n) (x ∷ xs) = omega (arith, length-drop n xs)

pub length-take {ℓ} : {A : Type ℓ} (n : ℕ) (xs : List A) → length (take n xs) ≡ min n (length xs)
length-take zero xs = omega arith
length-take (suc n) [] = omega arith
length-take (suc n) (x ∷ xs) = omega (arith, length-take n xs)

suc-add : (m n : ℕ) → suc m + n ≡ suc (m + n)
suc-add m n = omega arith

zero-add : (n : ℕ) → 0 + n ≡ n
zero-add n = omega arith

take-empty {ℓ} : {A : Type ℓ} (n : ℕ) → take {A = A} n [] ≡ []
take-empty zero = refl
take-empty (suc n) = refl

take-add {ℓ} :
    {A : Type ℓ} (m n : ℕ) (xs : List A) → take m xs ++ take n (drop m xs) ≡ take (m + n) xs
take-add zero n xs = rw (zero-add n) refl
take-add (suc m) n [] = take-empty n ∙ sym (take-empty (suc m + n))
take-add (suc m) n (x ∷ xs) = rw (suc-add m n) (ap (λ t. x ∷ t) (take-add m n xs))

take-all {ℓ} : {A : Type ℓ} (n : ℕ) (xs : List A) → length xs ≤ n → take n xs ≡ xs
take-all zero [] h = refl
take-all zero (x ∷ xs) h = absurd (omega arith)
take-all (suc n) [] h = refl
take-all (suc n) (x ∷ xs) h = ap (λ t. x ∷ t) (take-all n xs (omega arith))

size_page {ℓ} :
    {A : Type ℓ} (rows : List A) (size pages k : ℕ)
    → (page_at rows size pages (suc k)).items ≡ take size (drop (k * size) rows)
size_page rows size pages k = let e : suc k - 1 ≡ k = omega arith in rw e refl

-- The rows of the first `n` pages.
abbrev pub pages_up_to {ℓ} : {A : Type ℓ} → List A → ℕ → ℕ → List A
pages_up_to rows page_size zero = []
pages_up_to rows page_size (suc k) =
    pages_up_to rows page_size k ++ (paginated_rows rows (suc k) page_size).items

current_self : (k pages : ℕ) → suc k ≤ pages → current_page (suc k) pages ≡ suc k
current_self k pages h = omega arith

pages_up_to_lem {ℓ} :
    {A : Type ℓ} (rows : List A) (page_size n : ℕ)
    → n ≤ pages_of (length rows) (safe_page_size page_size)
    → pages_up_to rows page_size n ≡ take (n * safe_page_size page_size) rows
unfolding paginated_rows
pages_up_to_lem rows page_size zero h =
    let none : 0 * safe_page_size page_size ≡ 0 = omega arith in rw none refl
pages_up_to_lem rows page_size (suc n) h =
    let size = safe_page_size page_size in
    let pages = pages_of (length rows) size in
    let next : suc n * size ≡ n * size + size = omega arith in
    rw
      (
        pages_up_to_lem rows page_size n (omega arith),
        current_self n pages h,
        size_page rows size pages n,
        take-add (n * size) size rows,
        next,
      )
      refl

-- The pages of a table, one after the other from the first to the last, have all its rows, each
-- once and in their order, whatever page size is asked for.
pub pages_up_to-whole {ℓ} :
    {A : Type ℓ} (rows : List A) (page page_size : ℕ)
    → pages_up_to rows page_size (paginated_rows rows page page_size).pages ≡ rows
unfolding paginated_rows
pages_up_to-whole rows page page_size =
    let size = safe_page_size page_size in
    pages_up_to_lem rows page_size (pages_of (length rows) size) (omega arith)
    ∙ take-all (pages_of (length rows) size * size) rows
        (pages_cover (length rows) size (size_bounds page_size).0)
