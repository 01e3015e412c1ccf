-- ===== src/Embedder.antt =====
-- runtime/src/embedder: what the host's imports object goes through before a component runs.
pub mod Text
pub mod Casing
pub mod Version
pub mod Resolver
