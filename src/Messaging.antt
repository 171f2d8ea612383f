-- ===== src/Messaging.antt =====
-- nameko/messaging.py: message headers, the queue consumer and the consuming entrypoints.
pub mod Consuming
pub mod Consumers
pub mod Delivery
mod Examples
pub mod Headers
pub mod Publishing
