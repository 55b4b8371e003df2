-- ===== src/Workers/Polling/Counted.antt =====
-- What a poll of completed services counts, and the queue after it.
use poolbrian_sms_automation.Prelude.{ℕ, ◌+◌, ◌≡◌}
use poolbrian_sms_automation.Workers.Contacts.{Contacts}
use poolbrian_sms_automation.Workers.Polling.{Counters, Ending, complete, broken_off}

abbrev pub total : Counters → ℕ
total c = c.created + c.skipped + c.failed

-- A loop that is not broken off counts each job once.
abbrev pub IsCounted : ℕ → Ending → Type 0
IsCounted n (complete c) = total c ≡ n
IsCounted n (broken_off error) = Unit
