-- ===== src/Security.antt =====
-- Users, roles and sessions of src/security.
pub mod Passwords
pub mod Accounts
pub mod Manager
