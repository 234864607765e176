-- ===== src/Tests.antt =====
-- Concrete inputs, and the theorems applied to them.
mod Chains
mod Ancestors
mod Blocks
mod Servers
mod Nodes
mod BlockChains
mod Geneses
mod Processors
