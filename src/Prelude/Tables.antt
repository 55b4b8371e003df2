-- ===== src/Prelude/Tables.antt =====
-- A table is a list of rows. `UPDATE … WHERE`, `SELECT … WHERE`, its row count, and what they keep.
use Prim.Native.Nat.{ℕ, suc}
use mathlib.Core.Path.{◌≡◌, refl, ap, ap₂}
use mathlib.Core.Logic.{inl, inr}
use mathlib.Core.Bool.{Bool, true, false}
use mathlib.Core.Option.{Option, none, some}
use mathlib.Core.List.{List, [], ◌∷◌, ◌++◌, map}
use native.Mathlib.Omega.{arith}
use poolbrian_sms_automation.Prelude.Tests.{if◌then◌else◌, Bool-cases, is_some}
use poolbrian_sms_automation.Prelude.Lists.{All, Fresh, Has, here, there}

module _ {ℓ} {A : Type ℓ} where
  -- `UPDATE … SET f WHERE p`.
  unfoldable pub update_where : (A → Bool) → (A → A) → List A → List A
  update_where p f [] = []
  update_where p f (x ∷ xs) = (if p x then f x else x) ∷ update_where p f xs

  -- `SELECT … WHERE p`.
  unfoldable pub select_where : (A → Bool) → List A → List A
  select_where p [] = []
  select_where p (x ∷ xs) = let rest = select_where p xs in if p x then x ∷ rest else rest

  -- The row count of such a statement.
  unfoldable pub count_where : (A → Bool) → List A → ℕ
  count_where p [] = 0
  count_where p (x ∷ xs) = let rest = count_where p xs in if p x then suc rest else rest

  -- The first row that matches.
  unfoldable pub find_where : (A → Bool) → List A → Option A
  find_where p [] = none
  find_where p (x ∷ xs) = let rest = find_where p xs in if p x then some x else rest

module _ {ℓ κ} {A : Type ℓ} where
  -- A property of rows that the assignment keeps on the rows it meets is kept by the statement.
  pub All-update_where :
      (P : A → Type κ) (p : A → Bool) (f : A → A) (xs : List A)
      → All (λ x. p x ≡ true → P x → P (f x)) xs
      → All P xs
      → All P (update_where p f xs)
  unfolding update_where
  All-update_where P p f [] keep h = tt
  All-update_where P p f (x ∷ xs) keep h = elim (Bool-cases (p x)) [
    | inl e ↦ rw e (keep.0 e h.0, All-update_where P p f xs keep.1 h.1)
    | inr e ↦ rw e (h.0, All-update_where P p f xs keep.1 h.1)
  ]

  -- A property that the assignment makes true of any row.
  pub All-update_where_made :
      (P : A → Type κ) (p : A → Bool) (f : A → A)
      → ((x : A) → P (f x))
      → (xs : List A) → All P xs
      → All P (update_where p f xs)
  unfolding update_where
  All-update_where_made P p f made [] h = tt
  All-update_where_made P p f made (x ∷ xs) h = elim (Bool-cases (p x)) [
    | inl e ↦ rw e (made x, All-update_where_made P p f made xs h.1)
    | inr e ↦ rw e (h.0, All-update_where_made P p f made xs h.1)
  ]

  -- Row by row, whether the statement meets the row or not.
  pub All-update_where_each :
      (P : A → Type κ) (p : A → Bool) (f : A → A) (xs : List A)
      → All (λ x. P (if p x then f x else x)) xs
      → All P (update_where p f xs)
  unfolding update_where
  All-update_where_each P p f [] h = tt
  All-update_where_each P p f (x ∷ xs) h = (h.0, All-update_where_each P p f xs h.1)

  -- What the statement makes true of the rows that it meets and what holds of the others.
  pub All-update_where_new :
      (P : A → Type κ) (p : A → Bool) (f : A → A)
      → ((x : A) → p x ≡ true → P (f x))
      → ((x : A) → p x ≡ false → P x)
      → (xs : List A) → All P (update_where p f xs)
  unfolding update_where
  All-update_where_new P p f hit miss [] = tt
  All-update_where_new P p f hit miss (x ∷ xs) = elim (Bool-cases (p x)) [
    | inl e ↦ rw e (hit x e, All-update_where_new P p f hit miss xs)
    | inr e ↦ rw e (miss x e, All-update_where_new P p f hit miss xs)
  ]

module _ {ℓ κ} {A : Type ℓ} {K : Type κ} where
  -- A column that the assignment leaves alone.
  pub map-update_where :
      (k : A → K) (p : A → Bool) (f : A → A)
      → ((x : A) → k (f x) ≡ k x)
      → (xs : List A) → map k (update_where p f xs) ≡ map k xs
  unfolding update_where
  map-update_where k p f keep [] = refl
  map-update_where k p f keep (x ∷ xs) = elim (Bool-cases (p x)) [
    | inl e ↦ rw e (ap₂ ◌∷◌ (keep x) (map-update_where k p f keep xs))
    | inr e ↦ rw e (ap (λ t. k x ∷ t) (map-update_where k p f keep xs))
  ]

  pub Fresh-select_where :
      (k : A → K) (p : A → Bool) (a : K) (xs : List A)
      → Fresh a (map k xs)
      → Fresh a (map k (select_where p xs))
  unfolding select_where
  Fresh-select_where k p a [] h = tt
  Fresh-select_where k p a (x ∷ xs) h = elim (Bool-cases (p x)) [
    | inl e ↦ rw e (h.0, Fresh-select_where k p a xs h.1)
    | inr e ↦ rw e (Fresh-select_where k p a xs h.1)
  ]

module _ {ℓ} {A : Type ℓ} where
  pub find_where_sound :
      (p : A → Bool) (xs : List A) (x : A) → find_where p xs ≡ some x → p x ≡ true
  unfolding find_where
  find_where_sound p [] x h = cc
  find_where_sound p (y ∷ ys) x h = ground (arith, find_where_sound p ys x)

  pub find_where-Has : (p : A → Bool) (xs : List A) (x : A) → find_where p xs ≡ some x → Has x xs
  unfolding find_where
  find_where-Has p [] x h = absurd (cc h)
  find_where-Has p (y ∷ ys) x h = elim (Bool-cases (p y)) [
    | inl e ↦ here (ground arith)
    | inr e ↦ there (find_where-Has p ys x (ground arith))
  ]

  -- A row behind the others is found, or one before it is.
  pub find_where-append_self :
      (p : A → Bool) (xs : List A) (x : A)
      → p x ≡ true
      → is_some (find_where p (xs ++ x ∷ [])) ≡ true
  unfolding find_where
  find_where-append_self p [] x h = rw h refl
  find_where-append_self p (y ∷ ys) x h = elim (Bool-cases (p y)) [
    | inl e ↦ rw e refl
    | inr e ↦ rw e (find_where-append_self p ys x h)
  ]

  -- An assignment that the test does not read keeps whether a row is found.
  pub find_where-update_where :
      (p q : A → Bool) (f : A → A)
      → ((x : A) → p (f x) ≡ p x)
      → (xs : List A) → is_some (find_where p (update_where q f xs)) ≡ is_some (find_where p xs)
  unfolding find_where update_where
  find_where-update_where p q f keep [] = refl
  find_where-update_where p q f keep (x ∷ xs) =
      let ih = find_where-update_where p q f keep xs in
      elim (Bool-cases (q x)) [
        | inl e ↦ elim (Bool-cases (p x)) [
          | inl d ↦ rw (e, keep x, d) refl
          | inr d ↦ rw (e, keep x, d) ih
        ]
        | inr e ↦ elim (Bool-cases (p x)) [ inl d ↦ rw (e, d) refl | inr d ↦ rw (e, d) ih ]
      ]

module _ {ℓ κ} {A : Type ℓ} (P : A → Type κ) (p : A → Bool) where
  pub All-select_where :
      (xs : List A) → All P xs → All (λ x. P x × (p x ≡ true)) (select_where p xs)
  unfolding select_where
  All-select_where [] h = tt
  All-select_where (x ∷ xs) h = elim (Bool-cases (p x)) [
    | inl e ↦ rw e ((h.0, e), All-select_where xs h.1)
    | inr e ↦ rw e (All-select_where xs h.1)
  ]
