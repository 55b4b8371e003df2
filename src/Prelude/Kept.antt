-- ===== src/Prelude/Kept.antt =====
-- The rows that an UPDATE or a DELETE leaves alone.
use mathlib.Core.Path.{◌≡◌, refl, ap}
use mathlib.Core.Logic.{◌⊎◌, inl, inr}
use mathlib.Core.Bool.{Bool, true, false, not}
use mathlib.Core.Option.{some}
use mathlib.Core.List.{List, [], ◌∷◌}
use poolbrian_sms_automation.Prelude.Tests.{Bool-cases}
use poolbrian_sms_automation.Prelude.Lists.{All, All-weaken, Has, here, there}
use poolbrian_sms_automation.Prelude.Tables.{update_where, select_where, find_where}

module _ {ℓ} {A : Type ℓ} where
  -- An UPDATE keeps each row that it does not meet.
  pub update_where-keeps :
      (p : A → Bool) (f : A → A) (xs : List A)
      → All (λ x. (p x ≡ true) ⊎ Has x (update_where p f xs)) xs
  unfolding update_where
  update_where-keeps p f [] = tt
  update_where-keeps p f (x ∷ xs) =
      let rest =
        All-weaken {P = λ y. (p y ≡ true) ⊎ Has y (update_where p f xs)}
          {Q = λ y. (p y ≡ true) ⊎ Has y (update_where p f (x ∷ xs))} (λ y. still x xs y) xs
          (update_where-keeps p f xs) in
      elim (Bool-cases (p x)) [ inl e ↦ (inl e, rest) | inr e ↦ (inr (here (rw e refl)), rest) ]
    where
      still :
          (z : A) (zs : List A) (y : A)
          → (p y ≡ true) ⊎ Has y (update_where p f zs)
          → (p y ≡ true) ⊎ Has y (update_where p f (z ∷ zs))
      still z zs y (inl e) = inl e
      still z zs y (inr m) = inr (there m)

  -- The rows that an UPDATE does not meet are what they were, in their order.
  pub select_where-update_where :
      (p : A → Bool) (f : A → A)
      → ((x : A) → p (f x) ≡ p x)
      → (xs : List A)
      → select_where (λ x. not (p x)) (update_where p f xs) ≡ select_where (λ x. not (p x)) xs
  unfolding select_where update_where
  select_where-update_where p f keep [] = refl
  select_where-update_where p f keep (x ∷ xs) = elim (Bool-cases (p x)) [
    | inl e ↦ rw (e, keep x, e) (select_where-update_where p f keep xs)
    | inr e ↦ rw (e, e) (ap (λ t. x ∷ t) (select_where-update_where p f keep xs))
  ]

  -- The first row of a key, where the UPDATE meets the rows of that key.
  pub found-update_where :
      (p : A → Bool) (f : A → A)
      → ((x : A) → p (f x) ≡ p x)
      → (xs : List A) (x : A) → find_where p xs ≡ some x
      → find_where p (update_where p f xs) ≡ some (f x)
  unfolding find_where update_where
  found-update_where p f keep [] x h = absurd (cc h)
  found-update_where p f keep (y ∷ ys) x h = elim (Bool-cases (p y)) [
    | inl e ↦ let same : y ≡ x = cc (rw e at h) in rw (e, keep y, e) (ap (λ t. some (f t)) same)
    | inr e ↦ rw (e, e) (found-update_where p f keep ys x (rw e at h))
  ]

  Has-select_where-cons :
      (p : A → Bool) (x y : A) (xs : List A)
      → Has y (select_where p xs)
      → Has y (select_where p (x ∷ xs))
  unfolding select_where
  Has-select_where-cons p x y xs m = elim (Bool-cases (p x)) [
    | inl e ↦ rw e (there m)
    | inr e ↦ rw e m
  ]

  Has-select_where-head :
      (p : A → Bool) (x : A) (xs : List A) → p x ≡ true → Has x (select_where p (x ∷ xs))
  unfolding select_where
  Has-select_where-head p x xs e = rw e (here refl)

  -- A DELETE keeps each row that it does not meet.
  pub select_where-keeps :
      (p : A → Bool) (xs : List A) → All (λ x. (p x ≡ false) ⊎ Has x (select_where p xs)) xs
  select_where-keeps p [] = tt
  select_where-keeps p (x ∷ xs) =
      let rest =
        All-weaken {P = λ y. (p y ≡ false) ⊎ Has y (select_where p xs)}
          {Q = λ y. (p y ≡ false) ⊎ Has y (select_where p (x ∷ xs))} (λ y. still x xs y) xs
          (select_where-keeps p xs) in
      elim (Bool-cases (p x)) [
        | inl e ↦ (inr (Has-select_where-head p x xs e), rest)
        | inr e ↦ (inl e, rest)
      ]
    where
      still :
          (z : A) (zs : List A) (y : A)
          → (p y ≡ false) ⊎ Has y (select_where p zs)
          → (p y ≡ false) ⊎ Has y (select_where p (z ∷ zs))
      still z zs y (inl e) = inl e
      still z zs y (inr m) = inr (Has-select_where-cons p z y zs m)
