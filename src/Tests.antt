-- ===== src/Tests.antt =====
-- Concrete data, and the theorems applied to it: an encoding, tries and buckets as association
-- lists, a small chain, and nodes.
mod Codec
mod World
mod Pools
mod Chains
mod Nodes
mod Relays
mod Clpas
mod Graphs
mod Measures
mod Brokers
