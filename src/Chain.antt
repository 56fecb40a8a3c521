-- ===== src/Chain.antt =====
-- What the modules of the chain share: results, the state-passing action, and the interface of
-- the Cosmos SDK. None of this code is in the repository: it is the Go runtime and the SDK.
pub mod Outcome
pub mod Store
pub mod Sorted
pub mod Checks
pub mod Keeps
pub mod Lands
pub mod Yields
pub mod Returns
pub mod Sdk
