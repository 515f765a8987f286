-- ===== src/Service/Reserve.antt =====
-- `reserve` of internal/service/service.go: the ledger transactions of a reservation and of an
-- adoption, and the handler that runs them around its calls of the inventory and the observer.
pub mod Replay
pub mod Plan
pub mod Commit
pub mod Handler
pub mod Again
pub mod Outcome
