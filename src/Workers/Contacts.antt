-- ===== src/Workers/Contacts.antt =====
-- `_customer_contacts` of app/workers.py: what a customer of the PoolBrain service is called and where
-- the customer is reached.
use Prim.Native.Char.{Char}
use poolbrian_sms_automation.Prelude.{
  ℕ, String, Option, none, some, Bool, true, false, List, [], ◌∷◌, ◌==◌, if◌then◌else◌,
}
use poolbrian_sms_automation.Store.Json.{
  Json, null, flag, number, negative, text, array, object, nil, cons, Fields, end, field, get,
}
use poolbrian_sms_automation.Domain.Contact.{
  Text, Python, Contact, valid, missing, invalid, normalize_us_phone, normalize_email,
}
use poolbrian_sms_automation.Webhooks.{points_of, text_of}

-- Python's `str` on a JSON value and its methods on texts.
pub record Host : Type 0 where
  pub py : Python
  pub chr : ℕ → Char
  pub str_of : Json → String
  pub strip : String → String
  pub int_of_text : String → Option ℕ

-- What Python takes for false.
abbrev pub is_falsy : Json → Bool
is_falsy null = true
is_falsy (flag b) = if b then false else true
is_falsy (number n) = n == 0
is_falsy (negative n) = false
is_falsy (text String.[]) = true
is_falsy (text (String.◌∷◌ c s)) = false
is_falsy (array nil) = true
is_falsy (array (cons x xs)) = false
is_falsy (object end) = true
is_falsy (object (field k v fs)) = false

-- A value of the field, an InvalidContact, or a TypeError, where the field has no text.
pub data Parsed : Type 0 where
  found : String → Parsed
  not_valid : Parsed
  type_error : Parsed

abbrev pub parsed : (ℕ → Char) → Contact → Parsed
parsed chr (valid t) = found (text_of chr t)
parsed chr missing = not_valid
parsed chr invalid = not_valid

unfoldable pub parse_with : Host → (Option Text → Contact) → Json → Parsed
parse_with host normalize (text s) = parsed host.chr (normalize (some (points_of s)))
parse_with host normalize v = if is_falsy v then not_valid else type_error

-- The loop over the keys, up to the first that is valid.
unfoldable pub first_valid : (Json → Parsed) → Fields → List String → Parsed
first_valid parse customer [] = not_valid
first_valid parse customer (key ∷ rest) =
    let others = first_valid parse customer rest in otherwise (parse (get key customer)) others
  where
    otherwise : Parsed → Parsed → Parsed
    otherwise (found v) others = found v
    otherwise type_error others = type_error
    otherwise not_valid others = others

abbrev pub phone_keys : List String
phone_keys = "Phone" ∷ "PhoneNumber" ∷ "ContactPhoneNumber" ∷ "MobilePhone" ∷ []

abbrev pub email_keys : List String
email_keys = "Email" ∷ "EmailAddress" ∷ "ContactEmail" ∷ "PrimaryEmail" ∷ []

pub record Contacts : Type 0 where
  pub name : String
  pub phone : Option String
  pub email : Option String

abbrev or_customer : String → String
or_customer String.[] = "Customer"
or_customer (String.◌∷◌ c s) = String.◌∷◌ c s

unfoldable pub name_of : Host → Fields → String
name_of host customer =
    let given = get "CustomerName" customer in
    or_customer (host.strip (if is_falsy given then "Customer" else host.str_of given))

-- `none` is the TypeError.
abbrev pub contacts_of : String → Parsed → Parsed → Option Contacts
contacts_of name type_error email = none
contacts_of name (found p) type_error = none
contacts_of name not_valid type_error = none
contacts_of name (found p) (found e) = some (record { name = name; phone = some p; email = some e })
contacts_of name (found p) not_valid = some (record { name = name; phone = some p; email = none })
contacts_of name not_valid (found e) = some (record { name = name; phone = none; email = some e })
contacts_of name not_valid not_valid = some (record { name = name; phone = none; email = none })

unfoldable pub customer_contacts : Host → Fields → Option Contacts
customer_contacts host customer =
    contacts_of (name_of host customer)
      (first_valid (parse_with host (normalize_us_phone host.py)) customer phone_keys)
      (first_valid (parse_with host (normalize_email host.py)) customer email_keys)
