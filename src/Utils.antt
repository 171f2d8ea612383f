-- ===== src/Utils.antt =====
-- nameko/utils: retrying, and redacted arguments.
mod Examples
pub mod Redact
pub mod Retry
