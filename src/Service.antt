-- ===== src/Service.antt =====
-- internal/service: the allocation policy and the life of an allocation, over the ledger's state.
pub mod Eligible
pub mod Choose
pub mod Observe
pub mod Withdrawal
pub mod Cancel
pub mod Abandon
pub mod Digests
pub mod Raise
pub mod Validate
pub mod Reserve
pub mod Adopt
pub mod Reads
pub mod Lifecycle
pub mod Bind
pub mod Reclaim
pub mod Capacity
pub mod Worker
