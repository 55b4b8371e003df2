-- ===== src/Domain/Sms.antt =====
-- app/domain/sms.py: the number of segments of a text message. A message is the list of its code
-- points, as `len` and iteration see it.
use native.Mathlib.Nat.{div-add-mod', mod-lt}
use poolbrian_sms_automation.Prelude.{
  ℕ, zero, suc, ◌+◌, ◌-◌, ◌*◌, ◌/◌, ◌≤◌, ◌<◌, ◌≡◌, refl, Bool, false, ◌||◌, ◌&&◌, List, [], ◌∷◌,
  Option, none, some, arith, if◌then◌else◌, leb, ◌==◌, length, Bool-cases, inl, inr, leb→le,
}

unfoldable pub member : ℕ → List ℕ → Bool
member c [] = false
member c (x ∷ xs) = x == c || member c xs

-- _GSM_BASIC: the letters, digits and signs of ASCII that it holds, and the code points of the
-- others, @£$¥èéùìòÇ and so on.
gsm_basic_ascii : ℕ → Bool
gsm_basic_ascii c =
    c == 10
    || (c == 13
        || (c == 64
            || (c == 36
                || (c == 95
                    || ((leb 32 c && leb c 63)
                        || ((leb 65 c && leb c 90) || (leb 97 c && leb c 122)))))))

abbrev gsm_basic_other : List ℕ
gsm_basic_other =
    163 ∷ 165 ∷ 232 ∷ 233 ∷ 249 ∷ 236 ∷ 242 ∷ 199 ∷ 216 ∷ 248 ∷ 197 ∷ 229 ∷ 916 ∷ 934 ∷ 915 ∷ 923
    ∷ 937 ∷ 928 ∷ 936 ∷ 931 ∷ 920 ∷ 926 ∷ 198 ∷ 230 ∷ 223 ∷ 201 ∷ 164 ∷ 161 ∷ 196 ∷ 214 ∷ 209 ∷ 220
    ∷ 167 ∷ 191 ∷ 228 ∷ 246 ∷ 241 ∷ 252 ∷ 224 ∷ []

unfoldable pub gsm_basic : ℕ → Bool
unfolding gsm_basic_ascii member
gsm_basic c = gsm_basic_ascii c || member c gsm_basic_other

-- _GSM_EXTENDED: ^{}\[~]| and the euro sign.
unfoldable pub gsm_extended : ℕ → Bool
unfolding member
gsm_extended c = member c (94 ∷ 123 ∷ 125 ∷ 92 ∷ 91 ∷ 126 ∷ 93 ∷ 124 ∷ 8364 ∷ [])

unfoldable pub segments : ℕ → ℕ → ℕ → ℕ
segments length single multipart =
    if leb length single then 1 else (length + multipart - 1) / multipart

-- The units counted by the loop; `none` is a character outside both sets, which ends it.
unfoldable pub gsm_units : ℕ → List ℕ → Option ℕ
gsm_units units [] = some units
gsm_units units (c ∷ rest) =
    let basic = gsm_units (units + 1) rest in
    let extended = gsm_units (units + 2) rest in
    if gsm_basic c then basic else (if gsm_extended c then extended else none)

abbrev segments_of : ℕ → Option ℕ → ℕ
segments_of characters none = segments characters 70 67
segments_of characters (some units) = segments units 160 153

unfoldable pub sms_segment_count : List ℕ → ℕ
sms_segment_count [] = 0
sms_segment_count (c ∷ s) = segments_of (length (c ∷ s)) (gsm_units 0 (c ∷ s))

parts_hold : (n m : ℕ) → 0 < m → (n ≤ (n + m - 1) / m * m) × ((n + m - 1) / m * m < n + m)
parts_hold n m h = (
  omega (arith, div-add-mod' (n + m - 1) m, mod-lt (n + m - 1) h),
  omega (arith, div-add-mod' (n + m - 1) m, mod-lt (n + m - 1) h),
)

-- A split into parts that hold something is as short as it can be: the parts hold the text, and one
-- part less would not; a text that fits a single message takes one segment.
pub segments_lem :
    (n single multipart : ℕ)
    → 0 < multipart
    → (n ≤ single → segments n single multipart ≡ 1)
      × (single < n
          → (n ≤ segments n single multipart * multipart)
            × (segments n single multipart * multipart < n + multipart))
unfolding segments
segments_lem n single multipart h = elim (Bool-cases (leb n single)) [
  | inl e ↦ rw e ((λ le. refl), (λ lt. absurd (ground arith)))
  | inr e ↦ rw e ((λ le. absurd (ground arith)), (λ lt. parts_hold n multipart h))
]

units_grow :
    (s : List ℕ) (units total : ℕ)
    → gsm_units units s ≡ some total
    → (units + length s ≤ total) × (total ≤ units + 2 * length s)
unfolding gsm_units
units_grow [] units total h = ground arith
units_grow (c ∷ s) units total h = elim (Bool-cases (gsm_basic c)) [
  | inl b ↦ ground (arith, b, units_grow s (units + 1) total)
  | inr b ↦ elim (Bool-cases (gsm_extended c)) [
    | inl x ↦ ground (arith, b, x, units_grow s (units + 2) total)
    | inr x ↦ absurd (ground (arith, b, x))
  ]
]

segments_pos : (n single multipart : ℕ) → 0 < n → 0 < multipart → 0 < segments n single multipart
segments_pos n single multipart h m = elim (Bool-cases (leb n single)) [
  | inl e ↦ omega (arith, (segments_lem n single multipart m).0 (leb→le n single e))
  | inr e ↦
      let held = ((segments_lem n single multipart m).1 (ground arith)).0 in
      pos_of (segments n single multipart) multipart (omega (arith, held))
]
  where
    pos_of : (k p : ℕ) → 0 < k * p → 0 < k
    pos_of zero p t = absurd (grind arith)
    pos_of (suc k) p t = omega arith

-- A message that is not empty takes at least one segment.
pub sms_segment_count_pos : (c : ℕ) (s : List ℕ) → 0 < sms_segment_count (c ∷ s)
unfolding sms_segment_count
sms_segment_count_pos c s = by_units (gsm_units 0 (c ∷ s)) refl
  where
    by_units : (o : Option ℕ) → gsm_units 0 (c ∷ s) ≡ o → 0 < segments_of (suc (length s)) o
    by_units none e = segments_pos (suc (length s)) 70 67 (omega arith) (omega arith)
    by_units (some total) e =
        segments_pos total 160 153 (omega (arith, (units_grow (c ∷ s) 0 total e).0)) (omega arith)
