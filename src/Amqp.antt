-- ===== src/Amqp.antt =====
-- nameko/amqp: publishing.
mod Examples
pub mod Publish
