-- ===== src/Dns.antt =====
-- internal/dns: the resolution of names by configured rules.
pub mod Cache
pub mod Config
pub mod Build
pub mod Client
pub mod Resolver
