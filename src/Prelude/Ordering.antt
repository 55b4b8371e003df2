-- ===== src/Prelude/Ordering.antt =====
-- `ORDER BY … LIMIT …`: a row that is left out is left out for rows that come no later.
use Prim.Native.Nat.{ℕ, zero, suc}
use mathlib.Core.Path.{◌≡◌, refl, ap}
use mathlib.Core.Logic.{◌⊎◌, inl, inr}
use mathlib.Core.Bool.{Bool, true, false, not, ◌&&◌}
use mathlib.Core.List.{List, [], ◌∷◌}
use native.Mathlib.Omega.{arith}
use poolbrian_sms_automation.Prelude.Tests.{Bool-cases}
use poolbrian_sms_automation.Prelude.Lists.{length, take, All, All-weaken, All-at, Has, here, there}
use poolbrian_sms_automation.Prelude.Tables.{select_where}
use poolbrian_sms_automation.Prelude.Selection.{
  insert_by, order_by, select_due, All-insert_by, IsCandidate,
}

module _ {ℓ} {A : Type ℓ} where
  Has-insert_by_new : (before : A → A → Bool) (x : A) (ys : List A) → Has x (insert_by before x ys)
  unfolding insert_by
  Has-insert_by_new before x [] = here refl
  Has-insert_by_new before x (y ∷ ys) = elim (Bool-cases (before x y)) [
    | inl e ↦ rw e (here refl)
    | inr e ↦ rw e (there (Has-insert_by_new before x ys))
  ]

  Has-insert_by :
      (before : A → A → Bool) (x a : A) (ys : List A) → Has a ys → Has a (insert_by before x ys)
  unfolding insert_by
  Has-insert_by before x a [] m = elim m [ ]
  Has-insert_by before x a (y ∷ ys) m = elim (Bool-cases (before x y)) [
    | inl e ↦ rw e (there m)
    | inr e ↦ rw e (elim m [ here p ↦ here p | there n ↦ there (Has-insert_by before x a ys n) ])
  ]

  pub Has-order_by :
      (before : A → A → Bool) (a : A) (xs : List A) → Has a xs → Has a (order_by before xs)
  unfolding order_by
  Has-order_by before a [] m = elim m [ ]
  Has-order_by before a (x ∷ xs) (here p) = rw p (Has-insert_by_new before a (order_by before xs))
  Has-order_by before a (x ∷ xs) (there m) =
      Has-insert_by before x a (order_by before xs) (Has-order_by before a xs m)

  pub Has-select_where :
      (p : A → Bool) (a : A) (xs : List A) → Has a xs → p a ≡ true → Has a (select_where p xs)
  unfolding select_where
  Has-select_where p a [] m h = elim m [ ]
  Has-select_where p a (x ∷ xs) (here e) h = rw (ap p e, h) (here e)
  Has-select_where p a (x ∷ xs) (there m) h =
      let ih = Has-select_where p a xs m h in
      elim (Bool-cases (p x)) [ inl e ↦ rw e (there ih) | inr e ↦ rw e ih ]

-- An order in which any two rows compare.
pub record IsOrder {ℓ} {A : Type ℓ} (before : A → A → Bool) : Type ℓ where
  pub total : (a b : A) → before a b ≡ false → before b a ≡ true
  pub transitive : (a b c : A) → before a b ≡ true → before b c ≡ true → before a c ≡ true

module _ {ℓ} {A : Type ℓ} (before : A → A → Bool) where
  -- Each row comes no later than the rows behind it.
  abbrev pub IsOrdered : List A → Type ℓ
  IsOrdered [] = Unit
  IsOrdered (x ∷ xs) = All (λ y. before x y ≡ true) xs × IsOrdered xs

  module _ (order : IsOrder before) where
    IsOrdered-insert_by : (x : A) (ys : List A) → IsOrdered ys → IsOrdered (insert_by before x ys)
    unfolding insert_by
    IsOrdered-insert_by x [] h = (tt, tt)
    IsOrdered-insert_by x (y ∷ ys) h = elim (Bool-cases (before x y)) [
      | inl e ↦ rw e ((e, All-weaken (λ z. order.transitive x y z e) ys h.0), h)
      | inr e ↦ rw e (
        All-insert_by (λ z. before y z ≡ true) before x ys (order.total x y e) h.0,
        IsOrdered-insert_by x ys h.1,
      )
    ]

    pub IsOrdered-order_by : (xs : List A) → IsOrdered (order_by before xs)
    unfolding order_by
    IsOrdered-order_by [] = tt
    IsOrdered-order_by (x ∷ xs) = IsOrdered-insert_by x _ (IsOrdered-order_by xs)

  -- `x` is among the first `n`, or there are `n` that come no later.
  abbrev pub IsServed : A → ℕ → List A → Type ℓ
  IsServed x n chosen = Has x chosen ⊎ ((length chosen ≡ n) × All (λ y. before y x ≡ true) chosen)

  IsServed-take : (x : A) (n : ℕ) (xs : List A) → IsOrdered xs → Has x xs → IsServed x n (take n xs)
  IsServed-take x zero xs o m = inr (refl, tt)
  IsServed-take x (suc n) [] o m = elim m [ ]
  IsServed-take x (suc n) (y ∷ ys) o (here p) = inl (here p)
  IsServed-take x (suc n) (y ∷ ys) o (there m) = elim (IsServed-take x n ys o.1 m) [
    | inl found ↦ inl (there found)
    | inr full ↦ inr (ap suc full.0, (All-at _ x ys m o.0, full.1))
  ]

  -- A candidate is selected, or the limit is filled with rows that come no later.
  pub IsServed-select_due :
      IsOrder before
      → (test : A → Bool) (key : A → ℕ) (held : ℕ → Bool) (limit : ℕ) (table : List A) (x : A)
      → IsCandidate test key held table x
      → IsServed x limit (select_due test key held before limit table)
  unfolding select_due
  IsServed-select_due order test key held limit table x c =
      IsServed-take x limit _
        (IsOrdered-order_by order (select_where (λ y. test y && not (held (key y))) table))
        (Has-order_by before x _
          (Has-select_where _ x table c.stored (let d = c.due in let f = c.free in ground arith)))
