-- ===== src/Prelude/Lists.antt =====
-- Lists measured by native numbers, predicates on all entries, and lists without repetition.
use Prim.Native.Nat.{ℕ, zero, suc, ◌+◌, ◌≤◌}
use mathlib.Core.Path.{◌≡◌, refl, ap, sym, subst, ◌∙◌}
use mathlib.Core.Logic.{◌≢◌}
use mathlib.Core.List.{List, [], ◌∷◌, ◌++◌, map}
use native.Mathlib.Omega.{arith}

module _ {ℓ} {A : Type ℓ} where
  abbrev pub length : List A → ℕ
  length [] = 0
  length (x ∷ xs) = suc (length xs)

  abbrev pub take : ℕ → List A → List A
  take zero xs = []
  take (suc n) [] = []
  take (suc n) (x ∷ xs) = x ∷ take n xs

  pub length-append : (xs ys : List A) → length (xs ++ ys) ≡ length xs + length ys
  length-append [] ys = omega arith
  length-append (x ∷ xs) ys = omega (arith, length-append xs ys)

  pub length-take-le : (n : ℕ) (xs : List A) → length (take n xs) ≤ n
  length-take-le zero xs = omega arith
  length-take-le (suc n) [] = omega arith
  length-take-le (suc n) (x ∷ xs) = omega (arith, length-take-le n xs)

module _ {ℓ κ} {A : Type ℓ} where
  -- `P` holds of every entry.
  abbrev pub All : (A → Type κ) → List A → Type κ
  All P [] = Unit
  All P (x ∷ xs) = P x × All P xs

  pub All-append : (P : A → Type κ) (xs ys : List A) → All P xs → All P ys → All P (xs ++ ys)
  All-append P [] ys hx hy = hy
  All-append P (x ∷ xs) ys hx hy = (hx.0, All-append P xs ys hx.1 hy)

  pub All-take : (P : A → Type κ) (n : ℕ) (xs : List A) → All P xs → All P (take n xs)
  All-take P zero xs h = tt
  All-take P (suc n) [] h = tt
  All-take P (suc n) (x ∷ xs) h = (h.0, All-take P n xs h.1)

module _ {ℓ κ μ} {A : Type ℓ} {P : A → Type κ} {Q : A → Type μ} where
  pub All-weaken : ((x : A) → P x → Q x) → (xs : List A) → All P xs → All Q xs
  All-weaken f [] h = tt
  All-weaken f (x ∷ xs) h = (f x h.0, All-weaken f xs h.1)

module _ {ℓ κ μ ν} {A : Type ℓ} {P : A → Type κ} {Q : A → Type μ} {R : A → Type ν} where
  pub All-both : ((x : A) → P x → Q x → R x) → (xs : List A) → All P xs → All Q xs → All R xs
  All-both f [] h k = tt
  All-both f (x ∷ xs) h k = (f x h.0 k.0, All-both f xs h.1 k.1)

module _ {ℓ} {A : Type ℓ} where
  -- `a` is the entry at some place of the list.
  pub data Has (a : A) : List A → Type ℓ where
    here : {x : A} {xs : List A} → x ≡ a → Has a (x ∷ xs)
    there : {x : A} {xs : List A} → Has a xs → Has a (x ∷ xs)

  -- No entry is `a`.
  abbrev pub Fresh : A → List A → Type ℓ
  Fresh a xs = All (λ x. x ≢ a) xs

  -- No entry is repeated: a UNIQUE column.
  abbrev pub IsUnique : List A → Type ℓ
  IsUnique [] = Unit
  IsUnique (x ∷ xs) = Fresh x xs × IsUnique xs

module _ {ℓ} {A : Type ℓ} where
  pub Fresh-not-Has : {a : A} {xs : List A} → Has a xs → Fresh a xs → ⊥
  Fresh-not-Has (here e) f = f.0 e
  Fresh-not-Has (there m) f = Fresh-not-Has m f.1

  pub Fresh-take : (n : ℕ) (a : A) (xs : List A) → Fresh a xs → Fresh a (take n xs)
  Fresh-take n a xs h = All-take (λ x. x ≢ a) n xs h

  pub IsUnique-snoc : (xs : List A) (a : A) → IsUnique xs → Fresh a xs → IsUnique (xs ++ a ∷ [])
  IsUnique-snoc [] a u f = (tt, tt)
  IsUnique-snoc (x ∷ xs) a u f =
      (All-append (λ y. y ≢ x) xs (a ∷ []) u.0 ((λ e. f.0 (sym e)), tt), IsUnique-snoc xs a u.1 f.1)

module _ {ℓ} {A : Type ℓ} where
  All-there : (a : A) (xs ys : List A) → All (λ x. Has x xs) ys → All (λ x. Has x (a ∷ xs)) ys
  All-there a xs ys h = All-weaken (λ x m. there m) ys h

  -- Every entry is in the list.
  pub All-Has_self : (xs : List A) → All (λ x. Has x xs) xs
  All-Has_self [] = tt
  All-Has_self (x ∷ xs) = (here refl, All-there x xs xs (All-Has_self xs))

module _ {ℓ κ} {A : Type ℓ} (P : A → Type κ) where
  -- What holds of all entries holds of each.
  pub All-at : (a : A) (xs : List A) → Has a xs → All P xs → P a
  All-at a [] m h = elim m [ ]
  All-at a (x ∷ xs) (here e) h = subst P e h.0
  All-at a (x ∷ xs) (there m) h = All-at a xs m h.1

  pub All-of : ((x : A) → P x) → (xs : List A) → All P xs
  All-of f [] = tt
  All-of f (x ∷ xs) = (f x, All-of f xs)

module _ {ℓ κ} {A : Type ℓ} {K : Type κ} (k : A → K) where
  not-Fresh_of_Has : (a : A) (b : K) (xs : List A) → Has a xs → k a ≡ b → Fresh b (map k xs) → ⊥
  not-Fresh_of_Has a b [] m p f = elim m [ ]
  not-Fresh_of_Has a b (x ∷ xs) (here e) p f = f.0 (ap k e ∙ p)
  not-Fresh_of_Has a b (x ∷ xs) (there m) p f = not-Fresh_of_Has a b xs m p f.1

  -- Where a column is UNIQUE, rows that agree in it are one row.
  pub eq_of_key :
      (a b : A) (xs : List A) → Has a xs → Has b xs → k a ≡ k b → IsUnique (map k xs) → a ≡ b
  eq_of_key a b [] m m' p u = elim m [ ]
  eq_of_key a b (x ∷ xs) (here e) (here e') p u = sym e ∙ e'
  eq_of_key a b (x ∷ xs) (here e) (there m) p u =
      absurd (not-Fresh_of_Has b (k x) xs m (sym p ∙ sym (ap k e)) u.0)
  eq_of_key a b (x ∷ xs) (there m) (here e) p u =
      absurd (not-Fresh_of_Has a (k x) xs m (p ∙ sym (ap k e)) u.0)
  eq_of_key a b (x ∷ xs) (there m) (there m') p u = eq_of_key a b xs m m' p u.1

  pub Fresh-take-map :
      (n : ℕ) (b : K) (xs : List A) → Fresh b (map k xs) → Fresh b (map k (take n xs))
  Fresh-take-map zero b xs h = tt
  Fresh-take-map (suc n) b [] h = tt
  Fresh-take-map (suc n) b (x ∷ xs) h = (h.0, Fresh-take-map n b xs h.1)

  pub IsUnique-take-map : (n : ℕ) (xs : List A) → IsUnique (map k xs) → IsUnique (map k (take n xs))
  IsUnique-take-map zero xs h = tt
  IsUnique-take-map (suc n) [] h = tt
  IsUnique-take-map (suc n) (x ∷ xs) h = (Fresh-take-map n (k x) xs h.0, IsUnique-take-map n xs h.1)
