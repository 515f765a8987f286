-- ===== src/Domain.antt =====
-- internal/domain: the configuration, the ledger's rows, and errors as values. Maps are
-- association lists, pointers are `Option`, and a time is a number of nanoseconds whose zero is
-- Go's zero time.
pub mod Policy
pub mod Errors
pub mod Rows
pub mod State
pub mod Time
