-- ===== src/Routing.antt =====
-- internal/routing: which way a connection takes.
pub mod Glob
pub mod Matcher
pub mod Router
pub mod Fallback
