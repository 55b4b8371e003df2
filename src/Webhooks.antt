-- ===== src/Webhooks.antt =====
-- `twilio_inbound` and `twilio_status` of app/routes/webhooks.py: a text message of a customer, and
-- what became of a message that was sent. The check of Twilio's signature is a parameter.
pub mod Status
pub mod Alerts
use Prim.Native.Char.{Char, code}
use poolbrian_sms_automation.Prelude.{
  ℕ, suc, ◌+◌, String, Option, none, some, Bool, true, false, not, ◌&&◌, ◌||◌, List, [], ◌∷◌, leb,
  ltb, ◌==◌, if◌then◌else◌, str_eq, contains_text, take_text, get_or_text,
}
use poolbrian_sms_automation.Store.{Db, MessageJob}
use poolbrian_sms_automation.Domain.Contact.{
  Text, Python, Contact, valid, missing, invalid, normalize_us_phone, masked_destination,
}
use poolbrian_sms_automation.Domain.Backoff.{provider_status_rank}
use poolbrian_sms_automation.Jobs.Provider.{Callback, record_provider_event}
use poolbrian_sms_automation.Jobs.Enqueue.{enqueue_delivery_failure_alert}
use poolbrian_sms_automation.Inbound.{Sms, Recorded, duplicate, created, record_inbound_sms}

-- `str.strip`, `str.upper` and `str.lower` on texts, `chr`, `int(…)` of a text, what is said of
-- single characters, `encrypt_secret`, and the settings of the application.
pub record App : Type 0 where
  pub py : Python
  pub strip : String → String
  pub upper : String → String
  pub lower : String → String
  pub chr : ℕ → Char
  pub int_of : String → Option ℕ
  pub encrypt_secret : String → String
  pub message_max_attempts : ℕ
  pub company_phone_number : Option String
  pub alert_phone_number : Option String

-- A text as the list of its code points, and back.
unfoldable pub points_of : String → Text
points_of String.[] = []
points_of (String.◌∷◌ c s) = code c ∷ points_of s

unfoldable pub text_of : (ℕ → Char) → Text → String
text_of chr [] = String.[]
text_of chr (c ∷ rest) = String.◌∷◌ (chr c) (text_of chr rest)

abbrev pub points : Option String → Option Text
points none = none
points (some s) = some (points_of s)

abbrev pub valid_text : (ℕ → Char) → Contact → Option String
valid_text chr (valid t) = some (text_of chr t)
valid_text chr missing = none
valid_text chr invalid = none

-- `normalize_us_phone`; `none` is an InvalidContact.
unfoldable pub phone_of : App → Option String → Option String
phone_of app value = valid_text app.chr (normalize_us_phone app.py (points value))

abbrev pub is_alnum : ℕ → Bool
is_alnum c = (leb 48 c && leb c 57) || ((leb 65 c && leb c 90) || (leb 97 c && leb c 122))

unfoldable pub all_alnum : String → Bool
all_alnum String.[] = true
all_alnum (String.◌∷◌ c s) = is_alnum (code c) && all_alnum s

unfoldable pub text_length : String → ℕ
text_length String.[] = 0
text_length (String.◌∷◌ c s) = suc (text_length s)

-- `_SID_PATTERN.fullmatch(value)`: `^[A-Za-z0-9]{20,64}$`.
unfoldable pub is_sid : String → Bool
is_sid s = all_alnum s && (leb 20 (text_length s) && leb (text_length s) 64)

abbrev pub opt_out_keywords : List String
opt_out_keywords =
    "STOP" ∷ "STOPALL" ∷ "UNSUBSCRIBE" ∷ "CANCEL" ∷ "END" ∷ "QUIT" ∷ "REVOKE" ∷ "OPTOUT" ∷ []

abbrev pub opt_in_keywords : List String
opt_in_keywords = "START" ∷ "UNSTOP" ∷ "YES" ∷ []

abbrev pub twilio_statuses : List String
twilio_statuses =
    "accepted" ∷ "scheduled" ∷ "queued" ∷ "sending" ∷ "sent" ∷ "delivered" ∷ "undelivered"
    ∷ "failed" ∷ "canceled" ∷ []

-- The fields of the form.
pub record InboundForm : Type 0 where
  pub message_sid : Option String
  pub from_number : Option String
  pub to_number : Option String
  pub body : Option String
  pub opt_out_type : Option String

abbrev pub given : Option String → String
given none = ""
given (some s) = s

-- A refusal with its status code, or 204; the inbound hook tells whether the message was known.
pub data Response : Type 0 where
  aborted : ℕ → Response
  no_content : Response
  stored : Bool → Response

unfoldable pub opts_out : App → InboundForm → Bool
opts_out app f =
    str_eq (app.upper (app.strip (given f.opt_out_type))) "STOP"
    || contains_text opt_out_keywords (app.upper (app.strip (take_text 2000 (given f.body))))

unfoldable pub opts_in : App → InboundForm → Bool
opts_in app f =
    str_eq (app.upper (app.strip (given f.opt_out_type))) "START"
    || contains_text opt_in_keywords (app.upper (app.strip (take_text 2000 (given f.body))))

unfoldable pub sms_of : App → InboundForm → String → Sms
sms_of app f from_normalized = record {
  provider_message_id = app.strip (given f.message_sid);
  from_normalized = from_normalized;
  to_normalized = phone_of app f.to_number;
  message_body = take_text 2000 (given f.body);
  body_ciphertext = app.encrypt_secret (take_text 2000 (given f.body));
  customer_id = none;
  opt_out = opts_out app f;
  opt_in = opts_in app f;
  company_phone = phone_of app app.company_phone_number;
  customer_name = "Unknown customer";
  max_attempts = app.message_max_attempts;
}

abbrev pub is_duplicate : Recorded → Bool
is_duplicate duplicate = true
is_duplicate (created campaign id) = false

abbrev pub inbound_from : ℕ → App → InboundForm → Option String → Db → Response × Db
inbound_from now app f none db = (aborted 400, db)
inbound_from now app f (some phone) db =
    let (result, after) = record_inbound_sms now (sms_of app f phone) db in
    (stored (is_duplicate result), after)

-- `signed` is the answer of `valid_twilio_request`.
unfoldable pub twilio_inbound : ℕ → App → Bool → InboundForm → Db → Response × Db
twilio_inbound now app signed f db =
    if not signed
    then (aborted 403, db)
    else (if is_sid (app.strip (given f.message_sid))
        then inbound_from now app f (phone_of app f.from_number) db
        else (aborted 400, db))
