-- ===== src/Notices/Recipients.antt =====
-- `_normalized_customer_ids` and `_recipient_rows` of app/repositories/service_notices.py: which
-- customers a service notice goes to. A customer's id is a number from 0; the code drops an id
-- below 0 as it drops 0.
use poolbrian_sms_automation.Prelude.{
  ℕ, String, Option, none, some, Bool, false, ◌&&◌, ◌||◌, List, [], ◌∷◌, take, ltb, leb, ◌==◌,
  if◌then◌else◌, contains_text, get_or_text, is_some, select_where, order_by,
}
use poolbrian_sms_automation.Store.{Db, Campaign, Preference, sms}
use poolbrian_sms_automation.Jobs.Claim.{suppressed_for}

-- One step of `sorted({…})`.
unfoldable pub insert_id : ℕ → List ℕ → List ℕ
insert_id x [] = x ∷ []
insert_id x (y ∷ ys) =
    let rest = insert_id x ys in
    if x == y then y ∷ ys else (if ltb x y then x ∷ y ∷ ys else y ∷ rest)

unfoldable pub sorted_ids : List ℕ → List ℕ
unfolding insert_id
sorted_ids [] = []
sorted_ids (x ∷ xs) = let rest = sorted_ids xs in if ltb 0 x then insert_id x rest else rest

abbrev pub max_service_notice_recipients : ℕ
max_service_notice_recipients = 100

unfoldable pub normalized_customer_ids : List ℕ → List ℕ
unfolding sorted_ids
normalized_customer_ids ids = take max_service_notice_recipients (sorted_ids ids)

unfoldable pub contains_id : ℕ → List ℕ → Bool
contains_id x [] = false
contains_id x (y ∷ ys) = x == y || contains_id x ys

-- `customer_id = ANY(:customer_ids) AND phone_e164 IS NOT NULL`.
abbrev pub selected_test : List ℕ → Campaign → Bool
selected_test ids c = contains_id c.customer_id ids && is_some c.phone_e164

-- `ORDER BY customer_id, created_at DESC, id DESC`.
unfoldable pub newest_first : Campaign → Campaign → Bool
newest_first a b =
    ltb a.customer_id b.customer_id
    || (a.customer_id == b.customer_id
        && (ltb b.created_at a.created_at || (a.created_at == b.created_at && leb b.id a.id)))

abbrev pub last_customer : ℕ → Option ℕ → Bool
last_customer id none = false
last_customer id (some last) = last == id

-- `DISTINCT ON (customer_id)` of rows in the order of customer_id; `last` is the row before.
unfoldable pub distinct_on : Option ℕ → List Campaign → List Campaign
distinct_on last [] = []
distinct_on last (c ∷ rest) =
    let others = distinct_on (some c.customer_id) rest in
    if last_customer c.customer_id last then others else c ∷ others

pub record Recipient : Type 0 where
  pub customer_id : ℕ
  pub customer_name : String
  pub phone_e164 : String

-- `COALESCE(NULLIF(customer_name, ''), 'Customer')`.
abbrev pub notice_name : Option String → String
notice_name none = "Customer"
notice_name (some String.[]) = "Customer"
notice_name (some (String.◌∷◌ c s)) = String.◌∷◌ c s

abbrev pub recipient_of : Campaign → Recipient
recipient_of c = record {
  customer_id = c.customer_id;
  customer_name = notice_name c.customer_name;
  phone_e164 = get_or_text c.phone_e164 "";
}

-- The rows of the query: the latest campaign with a telephone number of each selected customer,
-- where that number is not suppressed.
unfoldable pub rows_of : List Preference → List Campaign → List Recipient
rows_of preferences [] = []
rows_of preferences (c ∷ rest) =
    let others = rows_of preferences rest in
    if suppressed_for preferences sms c.phone_e164 then others else recipient_of c ∷ others

-- The loop over the rows.
unfoldable pub unique_phones : List String → List Recipient → List Recipient
unique_phones seen [] = []
unique_phones seen (r ∷ rest) =
    let skipped = unique_phones seen rest in
    let kept = unique_phones (r.phone_e164 ∷ seen) rest in
    if contains_text seen r.phone_e164 then skipped else r ∷ kept

unfoldable pub recipient_rows : List ℕ → Db → List Recipient
unfolding order_by
recipient_rows ids db = take max_service_notice_recipients (
    unique_phones [] (
      rows_of db.communication_preferences (
        distinct_on none
          (order_by newest_first (select_where (selected_test ids) db.review_campaigns)))))

abbrev pub rows_for : Db → List ℕ → List Recipient
rows_for db [] = []
rows_for db (id ∷ ids) = recipient_rows (id ∷ ids) db

unfoldable pub eligible_service_notice_recipients : List ℕ → Db → List Recipient
eligible_service_notice_recipients ids db = rows_for db (normalized_customer_ids ids)
