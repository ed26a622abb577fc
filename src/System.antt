-- ===== src/System.antt =====
-- The back end as a whole: its requests, and the databases that they lead to.
pub mod Quiet
pub mod Ledger
pub mod Money
pub mod Routes
pub mod Runs
pub mod Access
mod Tests
