-- ===== src/Examples.antt =====
-- Concrete runs of the code at a small store, with the theorems applied to them.
pub mod Stored
pub mod Crypto
pub mod Handlers
pub mod Commands
pub mod Members
pub mod Parts
pub mod Encoded
pub mod Operators
pub mod Queries
pub mod Servers
pub mod Sessions
pub mod Systems
pub mod Connections
pub mod Watching
pub mod Watches
