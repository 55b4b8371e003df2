-- ===== src/Preferences/OptOut.antt =====
-- What a saved preference does to later reads of it, and to the queue at once.
use text.Mathlib.TextPositions.{eq_refl}
use poolbrian_sms_automation.Prelude.{
  ℕ, ◌≡◌, refl, String, true, false, ◌&&◌, some, List, [], ◌∷◌, arith, find_where, str_eq,
  if◌then◌else◌, All, All-update_where_new, eq_iff,
}
use poolbrian_sms_automation.Store.{Db, Channel, sms, email, channel_eq, Preference}
use poolbrian_sms_automation.Jobs.Claim.{prefers, suppressed_for}
use poolbrian_sms_automation.Jobs.Recovery.{withdraw_job}
use poolbrian_sms_automation.Preferences.{
  is_suppressed, upsert_preference, preference_of, PreferenceChange, store_preference,
  save_preference, withdraw_test,
}

pub same_channel : (a b : Channel) → channel_eq a b ≡ true → a ≡ b
same_channel sms sms h = refl
same_channel sms email h = cc
same_channel email sms h = cc
same_channel email email h = refl

pub channel_eq_refl : (c : Channel) → channel_eq c c ≡ true
channel_eq_refl sms = refl
channel_eq_refl email = refl

-- Looking a pair up after a preference was stored: that one for its pair, the old one else.
pub find-upsert_preference :
    (c : Channel) (d : String) (p : Preference) (ps : List Preference)
    → find_where (prefers c d) (upsert_preference p ps)
      ≡ (if prefers c d p then some p else find_where (prefers c d) ps)
unfolding find_where upsert_preference
find-upsert_preference c d p [] = refl
find-upsert_preference c d p (q ∷ ps) = ground (
  arith,
  eq_iff q.destination_normalized p.destination_normalized,
  eq_iff q.destination_normalized d,
  eq_iff p.destination_normalized d,
  find-upsert_preference c d p ps,
)

prefers_self :
    (now : ℕ) (c : PreferenceChange) → prefers c.channel c.destination (preference_of now c) ≡ true
prefers_self now c = rw (channel_eq_refl c.channel, eq_refl c.destination)

save_preference-preferences :
    (now : ℕ) (c : PreferenceChange) (db : Db)
    → (save_preference now c db).communication_preferences
      ≡ upsert_preference (preference_of now c) db.communication_preferences
unfolding save_preference store_preference
save_preference-preferences now c db = ground arith

-- A saved preference is what `is_suppressed` then reads for its recipient, and no other
-- recipient's answer changes.
pub is_suppressed-save_preference :
    (now : ℕ) (c : PreferenceChange) (db : Db) (channel : Channel) (d : String)
    → is_suppressed channel d (save_preference now c db) ≡ (
        if channel_eq c.channel channel && str_eq c.destination d
        then c.suppressed
        else is_suppressed channel d db)
unfolding is_suppressed
is_suppressed-save_preference now c db channel d =
    rw
      (
        save_preference-preferences now c db,
        find-upsert_preference channel d (preference_of now c) db.communication_preferences,
      )
      (ground arith)

-- The claim's test and the worker's test are one.
pub suppressed_for_lem :
    (channel : Channel) (d : String) (db : Db)
    → suppressed_for db.communication_preferences channel (some d) ≡ is_suppressed channel d db
unfolding suppressed_for is_suppressed
suppressed_for_lem channel d db = ground arith

-- After an opt-out no job to the recipient is queued, waiting for a retry, or leased.
pub save_preference-none_pending :
    (now : ℕ) (c : PreferenceChange) (db : Db)
    → c.suppressed ≡ true
    → All
        (λ job. withdraw_test c.channel c.destination job ≡ false)
        (save_preference now c db).message_jobs
unfolding save_preference store_preference withdraw_job
save_preference-none_pending now c db h = rw h (
    All-update_where_new (λ job. withdraw_test c.channel c.destination job ≡ false)
      (withdraw_test c.channel c.destination) (withdraw_job now c.reason) (λ job t. ground arith)
      (λ job t. t) db.message_jobs)
