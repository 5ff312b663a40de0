-- ===== src/Access.antt =====
-- Repository- and image-level access rules: backend/app/core/access_control.py.
pub mod Glob
pub mod Rules
pub mod Resolver
pub mod Explain
mod Tests
