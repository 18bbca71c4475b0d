-- ===== src/Decide.antt =====
-- The audited client of skills/jev-decide/scripts/decide.py: a request is validated, sent with
-- retries, and recorded in a log whose events are linked by hashes.
pub mod Retry
pub mod Audit
pub mod Validate
pub mod Body
pub mod Results
pub mod Client
mod Tests
