-- ===== src/Notices/Phones.antt =====
-- The loop that keeps one recipient for each telephone number.
use poolbrian_sms_automation.Prelude.{
  ◌≡◌, inl, inr, String, true, List, [], ◌∷◌, map, arith, Bool-cases, All, Fresh, IsUnique,
  contains_text, eq_iff,
}
use poolbrian_sms_automation.Notices.Recipients.{Recipient, unique_phones}

pub All-unique_phones {κ} :
    (P : Recipient → Type κ) (seen : List String) (rs : List Recipient)
    → All P rs
    → All P (unique_phones seen rs)
unfolding unique_phones
All-unique_phones P seen [] h = tt
All-unique_phones P seen (r ∷ rest) h =
    let skipped = All-unique_phones P seen rest h.1 in
    let kept = All-unique_phones P (r.phone_e164 ∷ seen) rest h.1 in
    elim (Bool-cases (contains_text seen r.phone_e164)) [
      | inl e ↦ rw e skipped
      | inr e ↦ rw e (h.0, kept)
    ]

-- A text that was seen is met no more.
unseen :
    (phone : String) (seen : List String) (rs : List Recipient)
    → contains_text seen phone ≡ true
    → Fresh phone (map Recipient.phone_e164 (unique_phones seen rs))
unfolding unique_phones
unseen phone seen [] h = tt
unseen phone seen (r ∷ rest) h =
    let skipped = unseen phone seen rest h in
    let kept = unseen phone (r.phone_e164 ∷ seen) rest (ground arith) in
    elim (Bool-cases (contains_text seen r.phone_e164)) [
      | inl e ↦ rw e skipped
      | inr e ↦ rw e ((λ same. cc (h, e, same)), kept)
    ]

pub unique_phones-IsUnique :
    (seen : List String) (rs : List Recipient)
    → IsUnique (map Recipient.phone_e164 (unique_phones seen rs))
unfolding unique_phones
unique_phones-IsUnique seen [] = tt
unique_phones-IsUnique seen (r ∷ rest) =
    let skipped = unique_phones-IsUnique seen rest in
    let kept = unique_phones-IsUnique (r.phone_e164 ∷ seen) rest in
    elim (Bool-cases (contains_text seen r.phone_e164)) [
      | inl e ↦ rw e skipped
      | inr e ↦ rw e (
        unseen r.phone_e164 (r.phone_e164 ∷ seen) rest
            (ground (arith, eq_iff r.phone_e164 r.phone_e164)),
        kept,
      )
    ]
