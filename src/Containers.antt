-- ===== src/Containers.antt =====
-- nameko/containers.py: the worker context, the run of a worker, and the life of a container.
pub mod Assembly
pub mod Context
mod Examples
pub mod Lifecycle
pub mod Worker
