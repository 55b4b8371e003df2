-- ===== src/Preferences/Links.antt =====
-- The links of app/repositories/unsubscribe.py: what following one does.
use text.Mathlib.TextPositions.{eq_refl}
use poolbrian_sms_automation.Prelude.{
  ℕ, ◌≡◌, refl, sym, String, Option, none, some, true, false, All,
}
use poolbrian_sms_automation.Store.{Db, Channel, UnsubscribeToken}
use poolbrian_sms_automation.Preferences.{
  is_suppressed, save_preference, withdraw_test, consume_unsubscribe_token, consume_row,
  unsubscribe_change,
}
use poolbrian_sms_automation.Preferences.OptOut.{
  channel_eq_refl, is_suppressed-save_preference, save_preference-none_pending,
}

consumed :
    (now : ℕ) (db : Db) (t : UnsubscribeToken)
    → let after = save_preference now (unsubscribe_change t) db in
      (is_suppressed t.channel t.destination_normalized after ≡ true)
      × All (λ job. withdraw_test t.channel t.destination_normalized job ≡ false) after.message_jobs
consumed now db t = (
  rw
      (
        is_suppressed-save_preference now (unsubscribe_change t) db t.channel
            t.destination_normalized,
        channel_eq_refl t.channel,
        eq_refl t.destination_normalized,
      )
      refl,
  save_preference-none_pending now (unsubscribe_change t) db refl,
)

consume_row_lem :
    (now : ℕ) (db : Db) (o : Option UnsubscribeToken) (channel : Channel) (d : String)
    → (consume_row now db o).0 ≡ some (channel, d)
    → let after = (consume_row now db o).1 in
      (is_suppressed channel d after ≡ true)
      × All (λ job. withdraw_test channel d job ≡ false) after.message_jobs
consume_row_lem now db none channel d h = absurd (cc h)
consume_row_lem now db (some t) channel d h =
    let same_channel : t.channel ≡ channel = cc h in
    let same_destination : t.destination_normalized ≡ d = cc h in
    rw (sym same_channel, sym same_destination) (consumed now db t)

-- A token that is consumed with an answer has opted out the recipient that the answer names: its
-- destination reads as suppressed, and no job to it is queued, waiting for a retry, or leased.
pub consume_unsubscribe_token_lem :
    (now : ℕ) (token : String) (db : Db) (channel : Channel) (d : String)
    → (consume_unsubscribe_token now token db).0 ≡ some (channel, d)
    → let after = (consume_unsubscribe_token now token db).1 in
      (is_suppressed channel d after ≡ true)
      × All (λ job. withdraw_test channel d job ≡ false) after.message_jobs
unfolding consume_unsubscribe_token
consume_unsubscribe_token_lem now token db channel d h = consume_row_lem now _ _ channel d h
