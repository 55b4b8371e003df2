-- ===== src/Campaigns.antt =====
-- The review campaigns of app/repositories/campaigns.py, and their cancellation by app/repositories/admin.py.
pub mod Cancel
pub mod Confirm
pub mod Workflow
pub mod Withdrawn
pub mod Alerts
