-- ===== src/Backend.antt =====
-- internal/backend/ssm: the backend that reaches the instance over Session Manager.
pub mod Notify
pub mod Upstream
