-- ===== src/Inbound/Newest.antt =====
-- The campaign that a message is about: the newest active one of the sender.
use poolbrian_sms_automation.Prelude.{
  ◌≤◌, ◌≡◌, ◌≢◌, ◌⊎◌, inl, inr, refl, sym, ◌∙◌, String, Option, none, some, true, false, List, [],
  ◌∷◌, arith, All, All-weaken, Has, here, there, Bool-cases, holds_text, holds_text_iff, ltb, ◌&&◌,
}
use poolbrian_sms_automation.Store.{Campaign, CampaignStatus}
use poolbrian_sms_automation.Campaigns.Cancel.{is_active}
use poolbrian_sms_automation.Inbound.{latest_active, newer_campaign}

-- A campaign of another phone, or one that is not active.
abbrev pub IsAside : String → Campaign → Type 0
IsAside phone d = (d.status ≢ CampaignStatus.active) ⊎ (d.phone_e164 ≢ some phone)

-- The newest active campaign of the phone.
pub record IsNewest (phone : String) (rows : List Campaign) (c : Campaign) : Type 0 where
  pub stored : Has c rows
  pub active : c.status ≡ CampaignStatus.active
  pub of_phone : c.phone_e164 ≡ some phone
  pub newest : All (λ d. (d.created_at ≤ c.created_at) ⊎ IsAside phone d) rows

-- What the search answers: the newest one, or that there is none.
abbrev pub Answers : String → List Campaign → Option Campaign → Type 0
Answers phone rows none = All (IsAside phone) rows
Answers phone rows (some c) = IsNewest phone rows c

active_of : (s : CampaignStatus) → is_active s ≡ true → s ≡ CampaignStatus.active
active_of s h = ground arith

not_active_of : (s : CampaignStatus) → is_active s ≡ false → s ≢ CampaignStatus.active
not_active_of s h e = cc (rw e at h)

test-IsAside :
    (phone : String) (d : Campaign)
    → (holds_text d.phone_e164 phone && is_active d.status) ≡ false
    → IsAside phone d
test-IsAside phone d h = elim (Bool-cases (holds_text d.phone_e164 phone)) [
  | inl e ↦ inl (not_active_of d.status (rw e at h))
  | inr e ↦ inr (λ k. cc (sym ((holds_text_iff d.phone_e164 phone).1 k) ∙ e))
]

match_of :
    (phone : String) (d : Campaign)
    → (holds_text d.phone_e164 phone && is_active d.status) ≡ true
    → (d.status ≡ CampaignStatus.active) × (d.phone_e164 ≡ some phone)
match_of phone d h = elim (Bool-cases (holds_text d.phone_e164 phone)) [
  | inl e ↦ (active_of d.status (rw e at h), (holds_text_iff d.phone_e164 phone).0 e)
  | inr e ↦ absurd (cc (rw e at h))
]

-- One more row: it is aside, or it is compared with the best of the others.
aside-Answers :
    (phone : String) (d : Campaign) (rows : List Campaign) (o : Option Campaign)
    → IsAside phone d
    → Answers phone rows o
    → Answers phone (d ∷ rows) o
aside-Answers phone d rows none a h = (a, h)
aside-Answers phone d rows (some c) a h = record {
  stored = there h.stored;
  active = h.active;
  of_phone = h.of_phone;
  newest = (inr a, h.newest);
}

newer-Answers :
    (phone : String) (d : Campaign) (rows : List Campaign) (o : Option Campaign)
    → (d.status ≡ CampaignStatus.active) × (d.phone_e164 ≡ some phone)
    → Answers phone rows o
    → Answers phone (d ∷ rows) (newer_campaign d o)
newer-Answers phone d rows none m h = record {
  stored = here refl;
  active = m.0;
  of_phone = m.1;
  newest = (inl (omega arith), All-weaken (λ x a. inr a) rows h);
}
newer-Answers phone d rows (some c) m h = elim (Bool-cases (ltb d.created_at c.created_at)) [
  | inl e ↦ rw e (record {
    stored = there h.stored;
    active = h.active;
    of_phone = h.of_phone;
    newest = (inl (ground arith), h.newest);
  })
  | inr e ↦ rw e (record {
    stored = here refl;
    active = m.0;
    of_phone = m.1;
    newest = (inl (omega arith), All-weaken (λ x a. still x a (ground arith)) rows h.newest);
  })
]
  where
    still :
        (x : Campaign)
        → (x.created_at ≤ c.created_at) ⊎ IsAside phone x
        → c.created_at ≤ d.created_at
        → (x.created_at ≤ d.created_at) ⊎ IsAside phone x
    still x (inl a) b = inl (omega arith)
    still x (inr a) b = inr a

pub latest_active-Answers :
    (phone : String) (rows : List Campaign) → Answers phone rows (latest_active phone rows)
unfolding latest_active
latest_active-Answers phone [] = tt
latest_active-Answers phone (d ∷ rows) =
    let ih = latest_active-Answers phone rows in
    elim (Bool-cases (holds_text d.phone_e164 phone && is_active d.status)) [
      | inl e ↦ rw e (newer-Answers phone d rows (latest_active phone rows) (match_of phone d e) ih)
      | inr e ↦
          rw e (aside-Answers phone d rows (latest_active phone rows) (test-IsAside phone d e) ih)
    ]
