-- ===== src/Lib.antt =====
-- Verification of platform-ipam, the service that hands out IP address space to the teams of a
-- cloud estate: a tenant reserves a block, binds it to a VPC or a subnet, and releases it; a worker
-- gives it back to the pool when it is certain that nothing uses it.
--
-- Parts and files:
-- - Prelude: Boolean tests, lists, maps and integers that the other files share.
-- - Netip: Go's net/netip for IPv4 prefixes, with addrInt and prefixFromInt of
--   internal/service/service.go.
-- - Domain: the records of internal/domain/types.go and internal/domain/config.go. `State` is the
--   ledger; its maps are association lists in the order that an iteration visits, and the theorems
--   hold for every such order.
-- - Service: the operations of internal/service. Choose is chooseCIDR; Validate is validateRequest
--   (Completed its defaults); Reserve is reserve (Replay, Plan and Commit are its replays and its
--   two transactions, Handler the whole); Adopt is Adopt and pinnedCIDR; Lifecycle is Patch,
--   finishBinding and Release (Quarantine is the row a release leaves); Bind is Bind (Seen is its
--   first read and its observations); Observe is trustedObservation, recordObservation,
--   snapshotConflict, observationConflict and bindingObserved; Reclaim is reclaimEligible,
--   reclaimFence and reclaimTick; Reads is Get, List, Operation, Pools and Findings (Order is the
--   order of texts that its sorts use); Capacity is occupiedBlocks of internal/service/capacity.go,
--   and Report its capacity; Withdrawal is the fences of internal/service/cancel.go and abandon.go;
--   Cancel is CancelReservation, its judgement and its transactions (Handler the whole); Abandon is
--   AbandonAdoption likewise, with its dry run; Raise is the findings and events of
--   internal/service/worker.go, and Worker the rest of that file: the recovery of holds (Worker
--   itself; Recovered and Converted say what it stands on), Projections is syncProjections,
--   Reconcile and Unmanaged are reconcileAllocations, and Tick two phases of Tick.
-- - Ledger: the transactions as the steps of one transition system over the ledger.
-- - Assess: the conflicts of internal/assess. Collect is dedupeAssociations and buildAssociations
--   of sweep.go, Sweep its sweep; Matrix is matrix.go; Conflict is buildConflicts, sortConflicts
--   and ConflictID; Report is Assess as far as its conflicts. A text that is put in order is the
--   list of its code points, whose order UTF-8 keeps.
-- - Examples: sample data and concrete runs.
--
-- How the code is read. A ledger transaction is a function of the state that returns the new state,
-- or an error and no new state: the ledger rolls a failed transaction back. What a call asks of the
-- clock, of `NewID`, of the inventory and of the observer is an argument. `reserve`,
-- `cancel_reservation` and `abandon_adoption` take two functions for what other processes do to the
-- ledger before their transactions, and a round of the worker's recovery takes one. Digests are a
-- record of functions, since SHA-256 and JSON are libraries.
--
-- Numbers. Addresses are numbers below 2 ^ 32, and `capacity`'s differences of uint64 keep their
-- wrap-around. Times are nanoseconds since Go's zero time; `Time.Sub` saturates. Configured
-- durations are taken not to overflow int64. Revisions do not overflow. A text that is not an IPv4
-- prefix parses to nothing; the code compares no IPv6 prefix with an IPv4 one. Loops are structural
-- recursion: over the lists, and over the number of candidates in the pool.
--
-- Not modelled: the adapters (internal/netbox, internal/cloud), storage, the command lines and the
-- transport, onboarding and migration, the Terraform provider; of internal/assess, coverage, notes
-- and summary; of internal/service, the dry run of an adoption. Error texts, event reasons and the
-- settings that no rule reads are left out of the records.
pub mod Prelude
pub mod Netip
pub mod Domain
pub mod Service
pub mod Ledger
pub mod Assess
pub mod Examples
