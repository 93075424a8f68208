-- ===== src/Store.antt =====
-- internal/store: the tables, and a database session in which any call may fail.
pub mod Tables
pub mod Session
pub mod Requests
pub mod Instances
pub mod Cleanup
pub mod Imports
pub mod Pools
pub mod Integrations
mod Tests
pub mod Trace
