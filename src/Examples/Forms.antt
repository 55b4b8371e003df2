-- ===== src/Examples/Forms.antt =====
-- Contacts, moments, delays and segments.
use poolbrian_sms_automation.Prelude.{
  ◌≡◌, ◌≤◌, ◌<◌, ◌+◌, ◌*◌, suc, min, refl, ◌&&◌, true, some, [], ◌∷◌, arith, leb, ◌==◌,
}
use poolbrian_sms_automation.Domain.Contact.{
  Text, Python, valid, normalize_us_phone, normalize_email, only_digits, complete_digits,
  check_digits, check_email, count_of, has_char, before_at, after_at,
}
use poolbrian_sms_automation.Domain.ContactForm.{
  IsE164, IsNormal, DigitLaw, normalize_us_phone-IsNormal, IsAddress, TextLaws,
  normalize_us_phone-IsE164, normalize_us_phone-fixed, normalize_email-IsAddress,
}
use poolbrian_sms_automation.Domain.Schedule.{
  Zone, review_message_schedule, next_service_notice_at, within_local_hours, date_of, hour_of,
  weekday, review_message_schedule_lem, next_service_notice_at_lem,
}
use poolbrian_sms_automation.Domain.Backoff.{retry_delay, retry_delay_lem}
use poolbrian_sms_automation.Domain.Sms.{segments, segments_lem}

-- ASCII alone: nothing is folded or stripped.
abbrev ascii : Python
ascii = record {
  is_digit = λ c. leb 48 c && leb c 57;
  is_space = λ c. c == 32;
  strip = λ s. s;
  casefold = λ s. s;
}

-- "8135550100" and its normal form.
abbrev national : Text
national = 56 ∷ 49 ∷ 51 ∷ 53 ∷ 53 ∷ 53 ∷ 48 ∷ 49 ∷ 48 ∷ 48 ∷ []

abbrev normal : Text
normal = 43 ∷ 49 ∷ national

normal_phone : normalize_us_phone ascii (some national) ≡ valid normal
unfolding normalize_us_phone only_digits complete_digits check_digits
normal_phone = refl

ascii_digits : DigitLaw ascii
ascii_digits c h = (λ e. ground arith, λ e. ground arith)

normalize_us_phone-IsE164_example : IsE164 normal
normalize_us_phone-IsE164_example =
    normalize_us_phone-IsE164 ascii national normal ascii_digits (omega arith) normal_phone

normal-IsNormal : IsNormal ascii normal
normal-IsNormal = normalize_us_phone-IsNormal ascii (some national) normal refl normal_phone

normalize_us_phone-fixed_example : normalize_us_phone ascii (some normal) ≡ valid normal
normalize_us_phone-fixed_example = normalize_us_phone-fixed ascii normal refl normal-IsNormal

-- "a@b.c".
abbrev address : Text
address = 97 ∷ 64 ∷ 98 ∷ 46 ∷ 99 ∷ []

ascii_laws : TextLaws ascii
ascii_laws = record { strip_nothing = λ s h. refl; casefold_twice = λ s. refl }

normal_address : normalize_email ascii (some address) ≡ valid address
unfolding normalize_email check_email count_of has_char before_at after_at
normal_address = refl

normalize_email-IsAddress_example :
    IsAddress ascii address × (normalize_email ascii (some address) ≡ valid address)
normalize_email-IsAddress_example =
    normalize_email-IsAddress ascii (some address) address ascii_laws normal_address

-- A zone whose clock shows UTC.
abbrev utc : Zone
utc = record { local = λ t. t; to_utc = λ t. t }

review_message_schedule_lem_example :
    let s = review_message_schedule utc 5000 2 10 in
    (date_of s.next_day_review_email ≡ date_of 5000 + 1)
    × (hour_of s.next_day_review_email ≡ 10)
    × (weekday (date_of s.saturday_review_email) ≡ 5)
    × (hour_of s.saturday_review_email ≡ 10)
    × (date_of s.next_day_review_email < date_of s.saturday_review_email)
    × (date_of s.saturday_review_email ≤ date_of s.next_day_review_email + 7)
review_message_schedule_lem_example =
    review_message_schedule_lem utc 5000 2 10 (omega arith) (λ day. refl)

next_service_notice_at_lem_example :
    (within_local_hours utc (next_service_notice_at utc 5000 9 19) 9 19 ≡ true)
    × (5000 ≤ next_service_notice_at utc 5000 9 19)
    × (date_of (next_service_notice_at utc 5000 9 19) ≤ date_of 5000 + 1)
next_service_notice_at_lem_example =
    next_service_notice_at_lem utc 5000 9 19 (omega arith) (omega arith) (λ day. refl)
      (λ day t h. h)

retry_delay_lem_example :
    (retry_delay 0 ≡ 30)
    × (retry_delay 1 ≡ 30)
    × (30 ≤ retry_delay 8)
    × (retry_delay 8 ≤ 3600)
    × (retry_delay (suc (suc 8)) ≡ min 3600 (2 * retry_delay (suc 8)))
    × (retry_delay (8 + 8) ≡ 3600)
retry_delay_lem_example = retry_delay_lem 8

segments_lem_example :
    (307 ≤ 160 → segments 307 160 153 ≡ 1)
    × (160 < 307 → (307 ≤ segments 307 160 153 * 153) × (segments 307 160 153 * 153 < 307 + 153))
segments_lem_example = segments_lem 307 160 153 (omega arith)
