-- ===== src/Notices/Eligible.antt =====
-- Who the recipients of a service notice are.
use poolbrian_sms_automation.Prelude.{
  ℕ, ◌≤◌, ◌≡◌, ◌≢◌, inl, inr, refl, subst, String, Option, none, some, Bool, true, false, not, ◌||◌,
  List, [], ◌∷◌, map, length, ◌==◌, arith, Bool-cases, All, All-weaken, All-both, All-at, All-take,
  All-Has_self, Has, IsUnique, IsUnique-take-map, length-take-le, is_some, get_or_text,
  select_where, order_by, IsOrder, IsOrdered, IsOrdered-order_by, Has-order_by, Has-select_where,
  All-order_by, All-select_where,
}
use poolbrian_sms_automation.Store.{Db, Campaign, sms}
use poolbrian_sms_automation.Jobs.Claim.{suppressed_for}
use poolbrian_sms_automation.Notices.Phones.{All-unique_phones, unique_phones-IsUnique}
use poolbrian_sms_automation.Notices.Recipients.{
  Recipient, selected_test, newest_first, distinct_on, last_customer, recipient_of, rows_of,
  recipient_rows, max_service_notice_recipients,
}

newest_first-IsOrder : IsOrder newest_first
unfolding newest_first
newest_first-IsOrder = record {
  total = λ a b h. ground arith;
  transitive = λ a b c h k. ground arith;
}

customer_le : (a b : Campaign) → newest_first a b ≡ true → a.customer_id ≤ b.customer_id
unfolding newest_first
customer_le a b h = ground arith

All-distinct_on {κ} :
    (P : Campaign → Type κ) (last : Option ℕ) (xs : List Campaign)
    → All P xs
    → All P (distinct_on last xs)
unfolding distinct_on
All-distinct_on P last [] h = tt
All-distinct_on P last (c ∷ rest) h =
    let ih = All-distinct_on P (some c.customer_id) rest h.1 in
    elim (Bool-cases (last_customer c.customer_id last)) [
      | inl e ↦ rw e ih
      | inr e ↦ rw e (h.0, ih)
    ]

-- No row of the customer that was last is left behind rows of it.
distinct_on-other :
    (k : ℕ) (xs : List Campaign)
    → IsOrdered newest_first xs
    → All (λ c. k ≤ c.customer_id) xs
    → All (λ c. c.customer_id ≢ k) (distinct_on (some k) xs)
unfolding distinct_on
distinct_on-other k [] o h = tt
distinct_on-other k (c ∷ rest) o h = elim (Bool-cases (k == c.customer_id)) [
  | inl e ↦
      rw e
        (let same : c.customer_id ≡ k = ground arith in rw same (distinct_on-other k rest o.1 h.1))
  | inr e ↦ rw e (
    (λ p. ground arith),
    All-distinct_on _ (some c.customer_id) rest
        (All-weaken (λ d n p. let le = customer_le c d n in let l = h.0 in ground arith) rest o.0),
  )
]

-- `d` does not come before `c` as the latest row of its customer.
abbrev pub not_newer : Campaign → Campaign → Bool
not_newer c d = not (d.customer_id == c.customer_id) || newest_first c d

newest_self : (c : Campaign) → not_newer c c ≡ true
unfolding newest_first
newest_self c = ground arith

distinct_on-newest :
    (last : Option ℕ) (xs : List Campaign)
    → IsOrdered newest_first xs
    → All (λ c. All (λ d. not_newer c d ≡ true) xs) (distinct_on last xs)
unfolding distinct_on
distinct_on-newest last [] o = tt
distinct_on-newest last (c ∷ rest) o =
    let others : All (λ x. All (λ d. not_newer x d ≡ true) (c ∷ rest))
        (distinct_on (some c.customer_id) rest) =
      All-both (λ x other newest. ((let n = other in ground arith), newest)) _
        (distinct_on-other c.customer_id rest o.1 (All-weaken (customer_le c) rest o.0))
        (distinct_on-newest (some c.customer_id) rest o.1) in
    elim (Bool-cases (last_customer c.customer_id last)) [
      | inl e ↦ rw e others
      | inr e ↦ rw e ((newest_self c, All-weaken (λ d n. ground arith) rest o.0), others)
    ]

-- Where a recipient comes from: the latest campaign of a selected customer that has a telephone
-- number, whose number is not suppressed.
pub record IsEligible (ids : List ℕ) (db : Db) (r : Recipient) : Type 0 where
  pub source : Campaign
  pub stored : Has source db.review_campaigns
  pub selected : selected_test ids source ≡ true
  pub newest :
      All (λ d. (not (selected_test ids d) || not_newer source d) ≡ true) db.review_campaigns
  pub customer : source.customer_id ≡ r.customer_id
  pub phone : source.phone_e164 ≡ some r.phone_e164
  pub unsuppressed : suppressed_for db.communication_preferences sms (some r.phone_e164) ≡ false

given_text_value : (o : Option String) → is_some o ≡ true → o ≡ some (get_or_text o "")
unfolding get_or_text
given_text_value none h = absurd (cc h)
given_text_value (some String.[]) h = refl
given_text_value (some (String.◌∷◌ c s)) h = refl

module _ (ids : List ℕ) (db : Db) where
  chosen : List Campaign
  chosen = select_where (selected_test ids) db.review_campaigns

  -- What is known of a row of `latest`.
  IsLatest : Campaign → Type 0
  IsLatest c =
      Has c db.review_campaigns
      × (selected_test ids c ≡ true)
      × All (λ d. (not (selected_test ids d) || not_newer c d) ≡ true) db.review_campaigns

  distinct_on-IsLatest : All IsLatest (distinct_on none (order_by newest_first chosen))
  unfolding chosen IsLatest
  distinct_on-IsLatest =
      All-both
        (λ c known newest. (
          known.0,
          known.1,
          All-weaken
              (λ d m. elim (Bool-cases (selected_test ids d)) [
                | inl e ↦ rw e (
                    All-at _ d _
                      (Has-order_by newest_first d _ (Has-select_where (selected_test ids) d _ m e))
                      newest)
                | inr e ↦ rw e refl
              ])
              db.review_campaigns (All-Has_self db.review_campaigns),
        ))
        _
        (All-distinct_on _ none _ (
          All-order_by _ newest_first _
            (All-select_where _ (selected_test ids) _ (All-Has_self db.review_campaigns))))
        (distinct_on-newest none _ (IsOrdered-order_by newest_first newest_first-IsOrder _))

  eligible :
      (c : Campaign)
      → IsLatest c
      → suppressed_for db.communication_preferences sms c.phone_e164 ≡ false
      → IsEligible ids db (recipient_of c)
  unfolding IsLatest
  eligible c h u =
      let phone = given_text_value c.phone_e164 (let s = h.1 in ground arith) in
      record {
        source = c;
        stored = h.0;
        selected = h.1;
        newest = h.2;
        customer = refl;
        phone = phone;
        unsuppressed =
            subst (λ p. suppressed_for db.communication_preferences sms p ≡ false) phone u;
      }

  rows_of-IsEligible :
      (cs : List Campaign)
      → All IsLatest cs
      → All (IsEligible ids db) (rows_of db.communication_preferences cs)
  unfolding rows_of IsLatest
  rows_of-IsEligible [] h = tt
  rows_of-IsEligible (c ∷ rest) h =
      let ih = rows_of-IsEligible rest h.1 in
      elim (Bool-cases (suppressed_for db.communication_preferences sms c.phone_e164)) [
        | inl e ↦ rw e ih
        | inr e ↦ rw e (eligible c h.0 e, ih)
      ]

-- Each recipient is the latest campaign with a telephone number of a selected customer, whose
-- number is not suppressed; no number occurs twice, and there are at most 100 recipients.
pub recipient_rows-IsEligible :
    (ids : List ℕ) (db : Db)
    → All (IsEligible ids db) (recipient_rows ids db)
      × IsUnique (map Recipient.phone_e164 (recipient_rows ids db))
      × (length (recipient_rows ids db) ≤ 100)
unfolding recipient_rows chosen
recipient_rows-IsEligible ids db = (
  All-take (IsEligible ids db) max_service_notice_recipients _ (
      All-unique_phones (IsEligible ids db) [] _
        (rows_of-IsEligible ids db _ (distinct_on-IsLatest ids db))),
  IsUnique-take-map Recipient.phone_e164 max_service_notice_recipients _
      (unique_phones-IsUnique [] _),
  length-take-le max_service_notice_recipients _,
)
