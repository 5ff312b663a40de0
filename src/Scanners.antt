-- ===== src/Scanners.antt =====
-- The vulnerability scanners: backend/app/modules/nexus/base.py, trivy.py, grype.py and persistence.py
-- over the tables of backend/app/models/scans.py. Scores are whole tenths; `str.lower`, `str.upper`,
-- the subprocess, the reading of JSON and the file system are parameters.
pub mod Outcome
pub mod Reports
pub mod Highest
pub mod Readiness
pub mod Replicas
pub mod Held
pub mod Output
pub mod Run
pub mod Restored
pub mod Persistence
pub mod Finished
pub mod Tallied
mod Tests
