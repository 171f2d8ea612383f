-- ===== src/Web.antt =====
-- nameko/web: HTTP entrypoints and websockets.
pub mod Http
pub mod Hub
pub mod Requests
pub mod Server
mod Examples
