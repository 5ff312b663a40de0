-- ===== src/Scans.antt =====
-- The scan ledger and what triggers a scan: backend/app/modules/nexus/events.py over the tables of
-- backend/app/models/scans.py. The tables are lists of rows, in insertion order.
pub mod Ledger
pub mod Webhook
pub mod Trigger
pub mod Forget
mod Tests
