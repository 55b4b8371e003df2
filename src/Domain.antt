-- ===== src/Domain.antt =====
-- The pure rules: app/domain/contact.py, app/domain/jobs.py, app/domain/sms.py and
-- app/time_utils.py with app/domain/reviews.py.
pub mod Contact
pub mod ContactForm
pub mod Backoff
pub mod Sms
pub mod Schedule
