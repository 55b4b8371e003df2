-- ===== src/Domain/Contact.antt =====
-- app/domain/contact.py. A text is the list of its code points. What Python's `re` and `str` say
-- about single characters and texts is a parameter, `Python`.
use poolbrian_sms_automation.Prelude.{
  ℕ, suc, Bool, true, false, not, ◌||◌, List, [], ◌∷◌, ◌++◌, Option, none, some, ltb, leb, ◌==◌,
  if◌then◌else◌, length, take,
}

abbrev pub Text : Type 0
Text = List ℕ

-- `\d`, `str.isspace`, `str.strip` and `str.casefold`.
pub record Python : Type 0 where
  pub is_digit : ℕ → Bool
  pub is_space : ℕ → Bool
  pub strip : Text → Text
  pub casefold : Text → Text

pub data Contact : Type 0 where
  valid : Text → Contact
  missing : Contact
  invalid : Contact

abbrev pub plus : ℕ
plus = b'+'

abbrev pub one : ℕ
one = b'1'

abbrev pub at_sign : ℕ
at_sign = b'@'

-- `re.sub(r"\D", "", value)`.
unfoldable pub only_digits : (ℕ → Bool) → Text → Text
only_digits is_digit [] = []
only_digits is_digit (c ∷ s) =
    let rest = only_digits is_digit s in if is_digit c then c ∷ rest else rest

-- `digits.startswith("1")`.
abbrev pub starts_with_one : Text → Bool
starts_with_one [] = false
starts_with_one (c ∷ s) = c == one

unfoldable pub check_digits : Text → Contact
check_digits digits =
    if not (length digits == 11) || not (starts_with_one digits)
    then invalid
    else valid (plus ∷ digits)

unfoldable pub complete_digits : Text → Text
complete_digits digits = if length digits == 10 then one ∷ digits else digits

-- `InvalidContact` is `missing` or `invalid`, by its message.
unfoldable pub normalize_us_phone : Python → Option Text → Contact
unfolding check_digits complete_digits
normalize_us_phone py none = missing
normalize_us_phone py (some []) = missing
normalize_us_phone py (some (c ∷ s)) =
    check_digits (complete_digits (only_digits py.is_digit (c ∷ s)))

-- `value.count("@")`.
unfoldable pub count_of : ℕ → Text → ℕ
count_of k [] = 0
count_of k (c ∷ s) = let rest = count_of k s in if c == k then suc rest else rest

unfoldable pub has_char : (ℕ → Bool) → Text → Bool
has_char p [] = false
has_char p (c ∷ s) = p c || has_char p s

-- The two parts of `value.rsplit("@", 1)` for a text with one `@`.
unfoldable pub before_at : Text → Text
before_at [] = []
before_at (c ∷ s) = let rest = before_at s in if c == at_sign then [] else c ∷ rest

unfoldable pub after_at : Text → Text
after_at [] = []
after_at (c ∷ s) = let rest = after_at s in if c == at_sign then s else rest

abbrev is_empty : Text → Bool
is_empty [] = true
is_empty (c ∷ s) = false

unfoldable pub check_email : Python → Text → Contact
check_email py email =
    if ltb 254 (length email) || not (count_of at_sign email == 1)
    then invalid
    else (if is_empty (before_at email)
          || (is_empty (after_at email)
              || (not (has_char (λ c. c == b'.') (after_at email)) || has_char py.is_space email))
        then invalid
        else valid email)

unfoldable pub normalize_email : Python → Option Text → Contact
unfolding check_email
normalize_email py none = missing
normalize_email py (some []) = missing
normalize_email py (some (c ∷ s)) = check_email py (py.casefold (py.strip (c ∷ s)))

-- `digits[-4:]`.
unfoldable pub last_four : Text → Text
last_four [] = []
last_four (c ∷ s) = let rest = last_four s in if leb (length s) 3 then c ∷ s else rest

abbrev pub stars : Text
stars = b'*' ∷ b'*' ∷ b'*' ∷ []

abbrev pub not_recorded : Text
not_recorded =
    b'N' ∷ b'o' ∷ b't' ∷ b' ' ∷ b'r' ∷ b'e' ∷ b'c' ∷ b'o' ∷ b'r' ∷ b'd' ∷ b'e' ∷ b'd' ∷ []

unfoldable pub mask_digits : Text → Text
mask_digits digits =
    if leb 4 (length digits) then stars ++ (b'-' ∷ (stars ++ (b'-' ∷ last_four digits))) else stars

-- The last `@` splits the value: the parts of `value.rsplit("@", 1)` for any text.
unfoldable pub before_last_at : Text → Text
before_last_at [] = []
before_last_at (c ∷ s) =
    let rest = before_last_at s in
    if has_char (λ d. d == at_sign) s then c ∷ rest else (if c == at_sign then [] else c ∷ rest)

unfoldable pub after_last_at : Text → Text
after_last_at [] = []
after_last_at (c ∷ s) =
    let rest = after_last_at s in
    if has_char (λ d. d == at_sign) s then rest else (if c == at_sign then s else rest)

unfoldable pub masked_destination : Python → Option Text → Text
unfolding mask_digits
masked_destination py none = not_recorded
masked_destination py (some []) = not_recorded
masked_destination py (some (c ∷ s)) =
    if has_char (λ d. d == at_sign) (c ∷ s)
    then take 1 (before_last_at (c ∷ s)) ++ (stars ++ (at_sign ∷ after_last_at (c ∷ s)))
    else mask_digits (only_digits py.is_digit (c ∷ s))
