-- ===== src/Wasm.antt =====
-- x/wasm: the rules of the module that runs smart contracts.
pub mod Gas
pub mod Access
pub mod Policy
pub mod Dispatcher
pub mod Position
pub mod Keys
pub mod Ante
pub mod Events
pub mod Contract
pub mod Archive
pub mod Keeper
pub mod Genesis
pub mod Messages
pub mod MsgServer
pub mod Grants
pub mod CosmosMsg
pub mod Encoders
pub mod Messenger
