-- ===== src/Prelude/Selection.antt =====
-- `SELECT … WHERE … ORDER BY … LIMIT … FOR UPDATE SKIP LOCKED`, the query by which workers find
-- their work, and what it selects.
use Prim.Native.Nat.{ℕ, ◌≤◌}
use mathlib.Core.Path.{◌≡◌, sym, subst}
use mathlib.Core.Logic.{◌≢◌, inl, inr}
use mathlib.Core.Bool.{Bool, true, false, not, ◌&&◌, ◌||◌}
use mathlib.Core.List.{List, [], ◌∷◌, map}
use native.Mathlib.Omega.{arith}
use poolbrian_sms_automation.Prelude.Tests.{◌==◌, if◌then◌else◌, Bool-cases}
use poolbrian_sms_automation.Prelude.Lists.{
  length, take, length-take-le, All, All-take, All-Has_self, Has, Fresh, IsUnique, eq_of_key,
  IsUnique-take-map,
}
use poolbrian_sms_automation.Prelude.Tables.{select_where, Fresh-select_where}

module _ {ℓ} {A : Type ℓ} where
  unfoldable pub insert_by : (A → A → Bool) → A → List A → List A
  insert_by before x [] = x ∷ []
  insert_by before x (y ∷ ys) = if before x y then x ∷ y ∷ ys else y ∷ insert_by before x ys

  unfoldable pub order_by : (A → A → Bool) → List A → List A
  unfolding insert_by
  order_by before [] = []
  order_by before (x ∷ xs) = insert_by before x (order_by before xs)

  -- `id IN (SELECT id FROM …)`.
  unfoldable pub contains_key : (A → ℕ) → ℕ → List A → Bool
  contains_key key i [] = false
  contains_key key i (x ∷ xs) = key x == i || contains_key key i xs

  -- `held` tells the rows that other transactions hold.
  unfoldable pub select_due :
      (A → Bool) → (A → ℕ) → (ℕ → Bool) → (A → A → Bool) → ℕ → List A → List A
  unfolding order_by
  select_due test key held before limit xs =
      take limit (order_by before (select_where (λ x. test x && not (held (key x))) xs))

module _ {ℓ κ} {A : Type ℓ} (P : A → Type κ) (before : A → A → Bool) where
  pub All-insert_by : (x : A) (ys : List A) → P x → All P ys → All P (insert_by before x ys)
  unfolding insert_by
  All-insert_by x [] p h = (p, tt)
  All-insert_by x (y ∷ ys) p h = elim (Bool-cases (before x y)) [
    | inl e ↦ rw e (p, h)
    | inr e ↦ rw e (h.0, All-insert_by x ys p h.1)
  ]

  pub All-order_by : (xs : List A) → All P xs → All P (order_by before xs)
  unfolding order_by
  All-order_by [] h = tt
  All-order_by (x ∷ xs) h = All-insert_by x (order_by before xs) h.0 (All-order_by xs h.1)

module _ {ℓ} {A : Type ℓ} (key : A → ℕ) (before : A → A → Bool) where
  Fresh-insert_by :
      (i : ℕ) (x : A) (ys : List A)
      → key x ≢ i
      → Fresh i (map key ys)
      → Fresh i (map key (insert_by before x ys))
  unfolding insert_by
  Fresh-insert_by i x [] n h = (n, tt)
  Fresh-insert_by i x (y ∷ ys) n h = elim (Bool-cases (before x y)) [
    | inl e ↦ rw e (n, h)
    | inr e ↦ rw e (h.0, Fresh-insert_by i x ys n h.1)
  ]

  IsUnique-insert_by :
      (x : A) (ys : List A)
      → Fresh (key x) (map key ys)
      → IsUnique (map key ys)
      → IsUnique (map key (insert_by before x ys))
  unfolding insert_by
  IsUnique-insert_by x [] f u = (tt, tt)
  IsUnique-insert_by x (y ∷ ys) f u = elim (Bool-cases (before x y)) [
    | inl e ↦ rw e (f, u)
    | inr e ↦
        rw e (Fresh-insert_by (key y) x ys (λ p. f.0 (sym p)) u.0, IsUnique-insert_by x ys f.1 u.1)
  ]

  Fresh-order_by :
      (i : ℕ) (xs : List A) → Fresh i (map key xs) → Fresh i (map key (order_by before xs))
  unfolding order_by
  Fresh-order_by i [] h = tt
  Fresh-order_by i (x ∷ xs) h =
      Fresh-insert_by i x (order_by before xs) h.0 (Fresh-order_by i xs h.1)

  IsUnique-order_by :
      (xs : List A) → IsUnique (map key xs) → IsUnique (map key (order_by before xs))
  unfolding order_by
  IsUnique-order_by [] u = tt
  IsUnique-order_by (x ∷ xs) u =
      IsUnique-insert_by x (order_by before xs) (Fresh-order_by (key x) xs u.0)
        (IsUnique-order_by xs u.1)

module _ {ℓ} {A : Type ℓ} (key : A → ℕ) where
  IsUnique-select_where :
      (p : A → Bool) (xs : List A) → IsUnique (map key xs) → IsUnique (map key (select_where p xs))
  unfolding select_where
  IsUnique-select_where p [] u = tt
  IsUnique-select_where p (x ∷ xs) u = elim (Bool-cases (p x)) [
    | inl e ↦ rw e (Fresh-select_where key p (key x) xs u.0, IsUnique-select_where p xs u.1)
    | inr e ↦ rw e (IsUnique-select_where p xs u.1)
  ]

  -- A row that has a selected row's key.
  selected_row {κ} :
      (P : A → Type κ) (i : ℕ) (xs : List A)
      → All P xs
      → contains_key key i xs ≡ true
      → (x : A) × P x × (key x ≡ i)
  unfolding contains_key
  selected_row P i [] h c = absurd (cc c)
  selected_row P i (x ∷ xs) h c = elim (Bool-cases (key x == i)) [
    | inl e ↦ (x, h.0, ground arith)
    | inr e ↦ selected_row P i xs h.1 (ground arith)
  ]

-- A row of the table that meets the WHERE clause and that no other transaction holds.
pub record IsCandidate {ℓ} {A : Type ℓ} (test : A → Bool) (key : A → ℕ) (held : ℕ → Bool)
    (table : List A) (x : A) : Type ℓ where
  pub stored : Has x table
  pub due : test x ≡ true
  pub free : held (key x) ≡ false

module _ {ℓ} {A : Type ℓ} (test : A → Bool) (key : A → ℕ) (held : ℕ → Bool) (before : A → A → Bool)
    (limit : ℕ) (table : List A) where
  candidates :
      (xs : List A)
      → All (λ x. Has x table) xs
      → All (IsCandidate test key held table) (select_where (λ x. test x && not (held (key x))) xs)
  unfolding select_where
  candidates [] h = tt
  candidates (x ∷ xs) h = elim (Bool-cases (test x && not (held (key x)))) [
    | inl e ↦
        rw e (record { stored = h.0; due = ground arith; free = ground arith }, candidates xs h.1)
    | inr e ↦ rw e (candidates xs h.1)
  ]

  -- Every selected row is a candidate.
  pub select_due-IsCandidate :
      All (IsCandidate test key held table) (select_due test key held before limit table)
  unfolding select_due
  select_due-IsCandidate = All-take (IsCandidate test key held table) limit _ (
      All-order_by (IsCandidate test key held table) before _
        (candidates table (All-Has_self table)))

  pub length-select_due : length (select_due test key held before limit table) ≤ limit
  unfolding select_due
  length-select_due = length-take-le limit _

  pub IsUnique-select_due :
      IsUnique (map key table) → IsUnique (map key (select_due test key held before limit table))
  unfolding select_due
  IsUnique-select_due u =
      IsUnique-take-map key limit _
        (IsUnique-order_by key before _ (IsUnique-select_where key _ table u))

  -- Where keys are unique, a row with a selected key is the selected row.
  pub selected-IsCandidate :
      (x : A)
      → IsUnique (map key table)
      → Has x table
      → contains_key key (key x) (select_due test key held before limit table) ≡ true
      → IsCandidate test key held table x
  selected-IsCandidate x u m c =
      let (y, candidate, e) =
        selected_row key (IsCandidate test key held table) (key x) _ select_due-IsCandidate c in
      subst (IsCandidate test key held table) (eq_of_key key y x table candidate.stored m e u)
        candidate
