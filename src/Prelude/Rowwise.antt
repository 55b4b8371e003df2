-- ===== src/Prelude/Rowwise.antt =====
-- Two states of a table whose rows are related one by one, in order.
use mathlib.Core.Path.{◌≡◌, refl, ap₂, ◌∙◌}
use mathlib.Core.Bool.{Bool, true}
use mathlib.Core.Logic.{inl, inr}
use mathlib.Core.List.{List, [], ◌∷◌, map}
use poolbrian_sms_automation.Prelude.Tests.{Bool-cases}
use poolbrian_sms_automation.Prelude.Lists.{All, All-of}
use poolbrian_sms_automation.Prelude.Tables.{update_where}

module _ {ℓ κ} {A : Type ℓ} where
  pub data Moves (R : A → A → Type κ) : List A → List A → Type (ℓ ⊔ κ) where
    nil : Moves R [] []
    cons : {x y : A} {xs ys : List A} → R x y → Moves R xs ys → Moves R (x ∷ xs) (y ∷ ys)

module _ {ℓ κ} {A : Type ℓ} (R : A → A → Type κ) where
  pub Moves-refl : ((x : A) → R x x) → (xs : List A) → Moves R xs xs
  Moves-refl r [] = nil
  Moves-refl r (x ∷ xs) = cons (r x) (Moves-refl r xs)

  -- An UPDATE whose assignment follows the relation on the rows that it meets.
  pub Moves-update_where_All :
      ((x : A) → R x x)
      → (p : A → Bool) (f : A → A) → (xs : List A) → All (λ x. p x ≡ true → R x (f x)) xs
      → Moves R xs (update_where p f xs)
  unfolding update_where
  Moves-update_where_All r p f [] h = nil
  Moves-update_where_All r p f (x ∷ xs) h = elim (Bool-cases (p x)) [
    | inl e ↦ rw e (cons (h.0 e) (Moves-update_where_All r p f xs h.1))
    | inr e ↦ rw e (cons (r x) (Moves-update_where_All r p f xs h.1))
  ]

  pub Moves-update_where :
      ((x : A) → R x x)
      → (p : A → Bool) (f : A → A) → ((x : A) → p x ≡ true → R x (f x))
      → (xs : List A) → Moves R xs (update_where p f xs)
  Moves-update_where r p f h xs =
      Moves-update_where_All r p f xs (All-of (λ x. p x ≡ true → R x (f x)) h xs)

module _ {ℓ κ μ} {A : Type ℓ} {R : A → A → Type κ} where
  -- A property that the relation carries over is carried over to the whole table.
  pub Moves-All :
      (P : A → Type μ)
      → ((x y : A) → R x y → P x → P y)
      → {xs ys : List A} → Moves R xs ys
      → All P xs
      → All P ys
  Moves-All P h nil a = tt
  Moves-All P h (cons {x} {y} r m) a = (h x y r a.0, Moves-All P h m a.1)

module _ {ℓ κ μ} {A : Type ℓ} {K : Type μ} {R : A → A → Type κ} where
  -- A column that the relation keeps.
  pub Moves-map :
      (k : A → K)
      → ((x y : A) → R x y → k y ≡ k x)
      → {xs ys : List A} → Moves R xs ys
      → map k ys ≡ map k xs
  Moves-map k h nil = refl
  Moves-map k h (cons {x} {y} r m) = ap₂ ◌∷◌ (h x y r) (Moves-map k h m)

module _ {ℓ κ} {A : Type ℓ} (R : A → A → Type κ) where
  -- A table after several such moves, one after the other.
  pub data Chain : List A → List A → Type (ℓ ⊔ κ) where
    done : {xs : List A} → Chain xs xs
    next : {xs ys zs : List A} → Moves R xs ys → Chain ys zs → Chain xs zs

module _ {ℓ κ μ} {A : Type ℓ} {R : A → A → Type κ} where
  pub Chain-All :
      (P : A → Type μ)
      → ((x y : A) → R x y → P x → P y)
      → {xs ys : List A} → Chain R xs ys
      → All P xs
      → All P ys
  Chain-All P h done a = a
  Chain-All P h (next m c) a = Chain-All P h c (Moves-All P h m a)

module _ {ℓ κ μ} {A : Type ℓ} {K : Type μ} {R : A → A → Type κ} where
  pub Chain-map :
      (k : A → K)
      → ((x y : A) → R x y → k y ≡ k x)
      → {xs ys : List A} → Chain R xs ys
      → map k ys ≡ map k xs
  Chain-map k h done = refl
  Chain-map k h (next m c) = Chain-map k h c ∙ Moves-map k h m

module _ {ℓ κ} {A : Type ℓ} {R : A → A → Type κ} where
  pub Chain-trans : {xs ys zs : List A} → Chain R xs ys → Chain R ys zs → Chain R xs zs
  Chain-trans done d = d
  Chain-trans (next m c) d = next m (Chain-trans c d)
