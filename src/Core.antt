-- ===== src/Core.antt =====
-- Package core: headers, the database, the header chain.
pub mod Types
pub mod Lru
pub mod Rawdb
pub mod Memory
pub mod HeaderChain
pub mod BlockChain
pub mod Genesis
pub mod Evm
pub mod Transition
pub mod Processor
