-- ===== src/Accounts.antt =====
-- The accounts of users and their login sessions (backend/app/core/security.py,
-- backend/app/services/auth_service.py, backend/app/services/user_service.py).
pub mod Store
pub mod Tokens
pub mod Devices
pub mod Sessions
pub mod Users
