-- ===== src/Wasm/Keeper.antt =====
-- x/wasm/keeper/keeper.go: codes, contracts and the calls of contracts.
pub mod Platform
pub mod Laws
pub mod Gas
pub mod Sequence
pub mod Code
pub mod History
pub mod Contracts
pub mod Depth
pub mod Response
pub mod Calls
pub mod Addresses
pub mod Keeping
pub mod Isolation
pub mod Registry
pub mod Instantiate
pub mod Migrate
