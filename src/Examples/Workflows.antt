-- ===== src/Examples/Workflows.antt =====
-- Services and alerts that are reported twice.
use poolbrian_sms_automation.Prelude.{◌≡◌, refl, none, some, false}
use poolbrian_sms_automation.Campaigns.Workflow.{
  Service, already_processed, create_completed_service_workflow,
}
use poolbrian_sms_automation.Campaigns.Alerts.{WaterAlert, create_water_alert_job}
use poolbrian_sms_automation.Campaigns.Workflow.Again.{
  create_completed_service_workflow_again, create_water_alert_job_again,
}
use poolbrian_sms_automation.Examples.Tables.{customer_phone, two_jobs}

abbrev service : Service
service = record {
  source_job_id = 77;
  customer_id = 7;
  customer_name = "Ann";
  phone_e164 = some customer_phone;
  email_normalized = some "ann@example.com";
  schedule = record {
    initial_review_sms = 200;
    next_day_review_email = 300;
    saturday_review_email = 400;
  };
  suppression_days = 30;
  max_attempts = 5;
  review_token = "token";
  str_of = λ n. "77";
}

abbrev service_without_phone : Service
service_without_phone = record service { phone_e164 = none; review_token = "other" }

create_completed_service_workflow_again_example :
    let first = create_completed_service_workflow 100 service two_jobs in
    create_completed_service_workflow 200 service_without_phone first.1
    ≡ (already_processed, first.1)
create_completed_service_workflow_again_example =
    create_completed_service_workflow_again 100 200 service service_without_phone two_jobs refl

abbrev water_alert : WaterAlert
water_alert = record {
  alert_id = 5;
  customer_id = 7;
  source_job_id = some 77;
  customer_name = "Ann";
  phone_e164 = customer_phone;
  inbound_event_id = 1;
  scheduled_at = 100;
  max_attempts = 5;
  alert_text = "5";
}

create_water_alert_job_again_example :
    let first = create_water_alert_job 100 water_alert two_jobs in
    create_water_alert_job 200 water_alert first.1 ≡ (false, first.1)
create_water_alert_job_again_example =
    create_water_alert_job_again 100 200 water_alert water_alert two_jobs refl
