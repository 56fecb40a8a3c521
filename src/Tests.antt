-- ===== src/Tests.antt =====
-- Concrete inputs of the theorems, and the theorems at work on them.
mod Toy
mod Factory
mod Contracts
mod Gas
mod Dispatch
mod Codec
mod Chain
mod Keys
mod Keeper
mod Genesis
mod Server
mod Grants
mod Messenger
