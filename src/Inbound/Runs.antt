-- ===== src/Inbound/Runs.antt =====
-- What an inbound message does to the queue, as actions of the queue.
use poolbrian_sms_automation.Prelude.{
  ℕ, ◌≡◌, refl, String, Option, none, some, Bool, true, false, ◌||◌, List, [], ◌∷◌, ◌++◌, arith,
  Bool-cases, inl, inr, if◌then◌else◌, is_some, find_where,
}
use poolbrian_sms_automation.Store.{Db, Campaign}
use poolbrian_sms_automation.Jobs.Enqueue.{insert_message_job}
use poolbrian_sms_automation.Preferences.{save_preference, store_preference}
use poolbrian_sms_automation.Campaigns.Cancel.{cancel_campaign_jobs}
use poolbrian_sms_automation.Queue.{
  Action, prefer, enqueue, cancel_campaign, change_campaigns, perform, run,
}
use poolbrian_sms_automation.Queue.Same.{SameQueue}
use poolbrian_sms_automation.Inbound.{
  Sms, same_message, record_inbound_sms, record_new, save_choice, store_message, preference_change,
  latest_active, replied, reply_reason, end_campaign, forward, forward_job, forward_to,
}

abbrev choice_actions : ℕ → Sms → Bool → List Action
choice_actions now m true = prefer now (preference_change m) ∷ []
choice_actions now m false = []

abbrev campaign_actions : ℕ → Sms → List Campaign → Option Campaign → List Action
campaign_actions now m campaigns none = []
campaign_actions now m campaigns (some c) =
    change_campaigns (replied now m.opt_out c campaigns)
    ∷ cancel_campaign now c.id (reply_reason m.opt_out)
    ∷ []

abbrev forward_actions : ℕ → Sms → Option Campaign → Option String → List Action
forward_actions now m campaign none = []
forward_actions now m campaign (some phone) = enqueue now (forward_job now m campaign phone) ∷ []

-- The actions of a message that is new: the preference, the end of the campaign, the forwarding.
abbrev pub new_actions :
    ℕ → Sms → List Campaign → Option Campaign → Bool → Option String → List Action
new_actions now m campaigns campaign chosen phone =
    choice_actions now m chosen
    ++ campaign_actions now m campaigns campaign
    ++ forward_actions now m campaign phone

abbrev pub inbound_actions : ℕ → Sms → Db → List Action
inbound_actions now m db =
    if is_some (find_where (same_message m.provider_message_id) db.inbound_messages)
    then []
    else new_actions now m db.review_campaigns (latest_active m.from_normalized db.review_campaigns)
        (m.opt_out || m.opt_in) (forward_to m m.company_phone)

pub chosen-campaigns :
    (now : ℕ) (m : Sms) (db : Db)
    → (save_choice now m (store_message now m db)).review_campaigns ≡ db.review_campaigns
unfolding save_choice save_preference store_preference
chosen-campaigns now m db = ground arith

new_run :
    (now : ℕ) (m : Sms) (db : Db) (chosen : Bool) (campaign : Option Campaign)
    (phone : Option String)
    → (m.opt_out || m.opt_in) ≡ chosen
    → SameQueue (run (new_actions now m db.review_campaigns campaign chosen phone) db) (
        forward now m campaign phone (
          end_campaign now m db.inbound_message_seq campaign
            (save_choice now m (store_message now m db))))
unfolding save_choice save_preference store_preference run perform forward end_campaign
    cancel_campaign_jobs insert_message_job
new_run now m db false none none e = ground arith
new_run now m db false none (some p) e = ground arith
new_run now m db false (some c) none e = ground arith
new_run now m db false (some c) (some p) e = ground arith
new_run now m db true none none e = ground arith
new_run now m db true none (some p) e = ground arith
new_run now m db true (some c) none e = ground arith
new_run now m db true (some c) (some p) e = ground arith

-- A message does to the queue what its actions do: the saved preference, then the end of the
-- campaign and of its jobs, then the forwarded text; a message that is known does nothing to it.
pub record_inbound_sms-run :
    (now : ℕ) (m : Sms) (db : Db)
    → SameQueue (run (inbound_actions now m db) db) (record_inbound_sms now m db).1
unfolding record_inbound_sms record_new save_choice
record_inbound_sms-run now m db =
    elim (Bool-cases
      (is_some (find_where (same_message m.provider_message_id) db.inbound_messages))) [
        | inl e ↦ rw e (unfold run in ground arith)
        | inr e ↦
            rw (e, chosen-campaigns now m db)
              (new_run now m db _ (latest_active m.from_normalized db.review_campaigns)
                (forward_to m m.company_phone) refl)
      ]
