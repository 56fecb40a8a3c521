-- ===== src/TokenFactory.antt =====
-- x/tokenfactory: denoms that any account may create, and that their admin mints and burns.
pub mod Denoms
pub mod State
pub mod Keeper
pub mod CreateDenom
pub mod Messages
pub mod MsgServer
pub mod Authority
pub mod Handle
pub mod Genesis
pub mod Bindings
pub mod Queries
