-- ===== src/Store.antt =====
-- The store: Redis, with dicts of the process in its place while it does not answer.
pub mod Client
pub mod Reading
pub mod Documents
pub mod Events
pub mod Granger
pub mod Weights
mod Tests
