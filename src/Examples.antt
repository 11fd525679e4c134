-- ===== src/Examples.antt =====
-- Concrete runs, on a server that answers every request with success.
pub mod DemoCurl
pub mod Contexts
pub mod Bulk
pub mod Builds
pub mod Transactions
pub mod Vacuums
pub mod Views
pub mod Queries
pub mod Walks
pub mod Samples
pub mod Scans
pub mod Sequential
pub mod Calls
pub mod Texts
pub mod Searches
