-- ===== src/Domain/ContactForm.antt =====
-- The normal forms of contacts: what they look like, and that normalising again changes nothing.
use poolbrian_sms_automation.Prelude.{
  ℕ, ◌≤◌, ◌<◌, ◌≡◌, ◌≢◌, ◌↔◌, refl, ap, ◌∙◌, Bool, true, false, [], ◌∷◌, Option, none, some, ◌==◌,
  length, arith, All, Bool-cases, inl, inr,
}
use poolbrian_sms_automation.Domain.Contact.{
  Text, Python, valid, plus, one, at_sign, only_digits, starts_with_one, check_digits,
  complete_digits, normalize_us_phone, count_of, has_char, before_at, after_at, check_email,
  normalize_email,
}

only_digits-All : (p : ℕ → Bool) (s : Text) → All (λ c. p c ≡ true) (only_digits p s)
unfolding only_digits
only_digits-All p [] = tt
only_digits-All p (c ∷ s) = elim (Bool-cases (p c)) [
  | inl e ↦ rw e (e, only_digits-All p s)
  | inr e ↦ rw e (only_digits-All p s)
]

only_digits-fixed : (p : ℕ → Bool) (s : Text) → All (λ c. p c ≡ true) s → only_digits p s ≡ s
unfolding only_digits
only_digits-fixed p [] h = refl
only_digits-fixed p (c ∷ s) h = rw h.0 (ap (λ t. c ∷ t) (only_digits-fixed p s h.1))

-- A number that was normalised: `+1` and ten characters that `\d` accepts.
pub record IsNormal (py : Python) (phone : Text) : Type 0 where
  pub digits : Text
  pub spelled : phone ≡ plus ∷ digits
  pub eleven : length digits ≡ 11
  pub national : starts_with_one digits ≡ true
  pub all_digits : All (λ c. py.is_digit c ≡ true) digits

complete_digits-All :
    (py : Python) (digits : Text)
    → py.is_digit one ≡ true
    → All (λ c. py.is_digit c ≡ true) digits
    → All (λ c. py.is_digit c ≡ true) (complete_digits digits)
unfolding complete_digits
complete_digits-All py digits h a = elim (Bool-cases (length digits == 10)) [
  | inl e ↦ rw e (h, a)
  | inr e ↦ rw e a
]

check_digits-valid :
    (digits phone : Text)
    → check_digits digits ≡ valid phone
    → (phone ≡ plus ∷ digits) × (length digits ≡ 11) × (starts_with_one digits ≡ true)
unfolding check_digits
check_digits-valid digits phone h = ground arith

-- A number that is accepted is `+1` and ten characters that `\d` accepts, where `1` is one.
pub normalize_us_phone-IsNormal :
    (py : Python) (value : Option Text) (phone : Text)
    → py.is_digit one ≡ true
    → normalize_us_phone py value ≡ valid phone
    → IsNormal py phone
unfolding normalize_us_phone
normalize_us_phone-IsNormal py none phone d h = cc
normalize_us_phone-IsNormal py (some []) phone d h = cc
normalize_us_phone-IsNormal py (some (c ∷ s)) phone d h =
    let checked = check_digits-valid (complete_digits (only_digits py.is_digit (c ∷ s))) phone h in
    record {
      digits = complete_digits (only_digits py.is_digit (c ∷ s));
      spelled = checked.0;
      eleven = checked.1;
      national = checked.2;
      all_digits = complete_digits-All py _ d (only_digits-All py.is_digit (c ∷ s));
    }

-- The E.164 form of a number of the US or Canada: `+1` and ten of the digits `0` to `9`.
pub record IsE164 (phone : Text) : Type 0 where
  pub digits : Text
  pub spelled : phone ≡ plus ∷ digits
  pub eleven : length digits ≡ 11
  pub national : starts_with_one digits ≡ true
  pub decimal : All (λ c. (48 ≤ c) × (c ≤ 57)) digits

-- Of the ASCII characters `\d` accepts `0` to `9` only.
abbrev pub DigitLaw : Python → Type 0
DigitLaw py = (c : ℕ) → c < 128 → (py.is_digit c ≡ true) ↔ ((48 ≤ c) × (c ≤ 57))

only_digits-decimal :
    (py : Python)
    → DigitLaw py
    → (s : Text) → All (λ c. c < 128) s
    → All (λ c. (48 ≤ c) × (c ≤ 57)) (only_digits py.is_digit s)
unfolding only_digits
only_digits-decimal py law [] h = tt
only_digits-decimal py law (c ∷ s) h = elim (Bool-cases (py.is_digit c)) [
  | inl e ↦ rw e ((law c h.0).0 e, only_digits-decimal py law s h.1)
  | inr e ↦ rw e (only_digits-decimal py law s h.1)
]

complete_digits-decimal :
    (digits : Text)
    → All (λ c. (48 ≤ c) × (c ≤ 57)) digits
    → All (λ c. (48 ≤ c) × (c ≤ 57)) (complete_digits digits)
unfolding complete_digits
complete_digits-decimal digits a = elim (Bool-cases (length digits == 10)) [
  | inl e ↦ rw e ((omega arith, omega arith), a)
  | inr e ↦ rw e a
]

-- Where all characters of a text are ASCII, a number that is accepted has the form E.164 for the
-- US and Canada. It supposes of `\d` that it accepts of the ASCII characters the ten digits only.
pub normalize_us_phone-IsE164 :
    (py : Python) (value phone : Text)
    → DigitLaw py
    → All (λ c. c < 128) value
    → normalize_us_phone py (some value) ≡ valid phone
    → IsE164 phone
unfolding normalize_us_phone
normalize_us_phone-IsE164 py [] phone law a h = cc
normalize_us_phone-IsE164 py (c ∷ s) phone law a h =
    let checked = check_digits-valid (complete_digits (only_digits py.is_digit (c ∷ s))) phone h in
    record {
      digits = complete_digits (only_digits py.is_digit (c ∷ s));
      spelled = checked.0;
      eleven = checked.1;
      national = checked.2;
      decimal = complete_digits-decimal _ (only_digits-decimal py law (c ∷ s) a);
    }

-- Normalising a normal number gives it back, where `+` is no digit.
pub normalize_us_phone-fixed :
    (py : Python) (phone : Text)
    → py.is_digit plus ≡ false
    → IsNormal py phone
    → normalize_us_phone py (some phone) ≡ valid phone
unfolding normalize_us_phone only_digits
normalize_us_phone-fixed py phone p h =
    rw (h.spelled, p, only_digits-fixed py.is_digit h.digits h.all_digits)
      (fixed h.digits h.eleven h.national)
  where
    fixed :
        (digits : Text)
        → length digits ≡ 11
        → starts_with_one digits ≡ true
        → check_digits (complete_digits digits) ≡ valid (plus ∷ digits)
    fixed digits e n = ground arith

-- What the program relies on of `strip` and `casefold`: a text without white space has nothing to
-- strip, and folding twice is folding once.
pub record TextLaws (py : Python) : Type 0 where
  pub strip_nothing : (s : Text) → has_char py.is_space s ≡ false → py.strip s ≡ s
  pub casefold_twice : (s : Text) → py.casefold (py.casefold s) ≡ py.casefold s

-- An accepted address: one `@` between two parts that are not empty, a dot behind it, no white
-- space, and at most 254 characters.
pub record IsAddress (py : Python) (email : Text) : Type 0 where
  pub short : length email ≤ 254
  pub one_at : count_of at_sign email ≡ 1
  pub local_part : before_at email ≢ []
  pub domain_part : after_at email ≢ []
  pub dotted : has_char (λ c. c == b'.') (after_at email) ≡ true
  pub no_space : has_char py.is_space email ≡ false

check_email-IsAddress :
    (py : Python) (folded email : Text)
    → check_email py folded ≡ valid email
    → (email ≡ folded) × IsAddress py folded
unfolding check_email
check_email-IsAddress py folded email h = (
  ground arith,
  record {
    short = ground arith;
    one_at = ground arith;
    local_part = ground arith;
    domain_part = ground arith;
    dotted = ground arith;
    no_space = ground arith;
  },
)

check_again :
    (py : Python) (email : Text)
    → TextLaws py
    → py.casefold email ≡ email
    → check_email py email ≡ valid email
    → normalize_email py (some email) ≡ valid email
unfolding normalize_email
check_again py [] laws f h = absurd (unfold check_email count_of in ground arith)
check_again py (c ∷ s) laws f h =
    let clean = (check_email-IsAddress py (c ∷ s) (c ∷ s) h).1.no_space in
    rw (laws.strip_nothing (c ∷ s) clean, f) h

folded_again :
    (py : Python) (folded email : Text)
    → TextLaws py
    → py.casefold folded ≡ folded
    → check_email py folded ≡ valid email
    → IsAddress py email × (normalize_email py (some email) ≡ valid email)
folded_again py folded email laws f h =
    let (same, address) = check_email-IsAddress py folded email h in
    rw same (address, check_again py folded laws f (h ∙ ap valid same))

-- An email that is accepted has the form of an address, and normalising it again gives it back,
-- where stripping leaves a text without white space alone and folding twice is folding once.
pub normalize_email-IsAddress :
    (py : Python) (value : Option Text) (email : Text)
    → TextLaws py
    → normalize_email py value ≡ valid email
    → IsAddress py email × (normalize_email py (some email) ≡ valid email)
normalize_email-IsAddress py none email laws h = absurd (unfold normalize_email in cc h)
normalize_email-IsAddress py (some []) email laws h = absurd (unfold normalize_email in cc h)
normalize_email-IsAddress py (some (c ∷ s)) email laws h =
    folded_again py (py.casefold (py.strip (c ∷ s))) email laws (laws.casefold_twice _)
      (unfold normalize_email in h)
