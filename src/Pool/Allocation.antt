-- ===== src/Pool/Allocation.antt =====
-- What an allocation does: on success, on failure, and to the servers that it does not choose.
pub mod Candidates
pub mod Choosing
pub mod Outcome
pub mod Exclusive
pub mod Taken
