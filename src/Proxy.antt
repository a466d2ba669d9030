-- ===== src/Proxy.antt =====
-- internal/proxy: how the proxy reaches a target.
pub mod Dialer
pub mod IdleTracker
