-- ===== src/Testing.antt =====
-- nameko/testing: waiting for an entrypoint, and restricting them (services.py and waiting.py).
pub mod Restricting
pub mod Waiting
mod Examples
