-- ===== src/Prelude/Tests.antt =====
-- Boolean tests on numbers, texts and optional columns, and the conditional.
use Prim.Native.Nat.{ℕ, ◌≤◌, ◌<◌, compare, Ordering}
use Prim.Native.String.{String}
use mathlib.Core.Path.{◌≡◌, refl}
use mathlib.Core.Logic.{◌≢◌, ◌↔◌, ◌⊎◌, inl, inr}
use mathlib.Core.Bool.{Bool, true, false, ◌||◌}
use mathlib.Core.Option.{Option, none, some}
use mathlib.Core.List.{List, [], ◌∷◌}
use native.Mathlib.Omega.{arith}
use text.Mathlib.Text.{◌==◌ as str_eq}
use text.Mathlib.TextEquality.{eq_iff}

abbrev pub ltb : ℕ → ℕ → Bool
ltb a b = elim (compare a b) [ Ordering.lt ↦ true | _ ↦ false ]

abbrev pub leb : ℕ → ℕ → Bool
leb a b = elim (compare a b) [ Ordering.gt ↦ false | _ ↦ true ]

infix 50 ◌==◌
abbrev pub ◌==◌ : ℕ → ℕ → Bool
a == b = elim (compare a b) [ Ordering.eq ↦ true | _ ↦ false ]

infix 1 if◌then◌else◌
abbrev pub if◌then◌else◌ {ℓ} : {A : Type ℓ} → Bool → A → A → A
if true then x else y = x
if false then x else y = y

pub ltb→lt : (a b : ℕ) → ltb a b ≡ true → a < b
ltb→lt a b h = ground arith

pub leb→le : (a b : ℕ) → leb a b ≡ true → a ≤ b
leb→le a b h = ground arith

pub ==_iff : (a b : ℕ) → ((a == b) ≡ true) ↔ (a ≡ b)
==_iff a b = ground arith

pub Bool-cases : (b : Bool) → (b ≡ true) ⊎ (b ≡ false)
Bool-cases true = inl refl
Bool-cases false = inr refl

-- `column IS NOT NULL`.
abbrev pub is_some {ℓ} : {A : Type ℓ} → Option A → Bool
is_some none = false
is_some (some a) = true

-- `COALESCE(column, value)`, where the value may be NULL too.
abbrev pub coalesce {ℓ} : {A : Type ℓ} → Option A → Option A → Option A
coalesce none b = b
coalesce (some a) b = some a

-- `column = :value`: a NULL column is no match.
abbrev pub holds_text : Option String → String → Bool
holds_text none b = false
holds_text (some a) b = str_eq a b

abbrev pub holds_number : Option ℕ → ℕ → Bool
holds_number none b = false
holds_number (some a) b = a == b

-- `column < :value`, for a column that may be NULL.
abbrev pub holds_before : Option ℕ → ℕ → Bool
holds_before none b = false
holds_before (some a) b = ltb a b

-- `value in {…}` for texts.
abbrev pub contains_text : List String → String → Bool
contains_text [] k = false
contains_text (x ∷ xs) k = str_eq x k || contains_text xs k

pub holds_text_iff : (a : Option String) (b : String) → (holds_text a b ≡ true) ↔ (a ≡ some b)
holds_text_iff none b = ground arith
holds_text_iff (some a) b = ground (arith, eq_iff a b)

pub is_some-coalesce {ℓ} :
    {A : Type ℓ} (o : Option A) (a : A) → is_some (coalesce o (some a)) ≡ true
is_some-coalesce none a = refl
is_some-coalesce (some b) a = refl

pub ne_of_test : (a b : ℕ) → (a == b) ≡ false → a ≢ b
ne_of_test a b h e = ground arith
