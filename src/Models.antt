-- ===== src/Models.antt =====
-- runner/models.py: the data that the runner passes from its drivers to its assertions and records.
-- Texts of log lines and check details are left out; seconds are counted in milliseconds.
pub mod Severity
pub mod Cases
pub mod Records
pub mod Ids
