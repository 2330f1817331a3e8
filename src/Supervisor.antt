-- ===== src/Supervisor.antt =====
-- The supervisor: when it stops the nodes, and what it measures (supervisor/).
pub mod Signal
pub mod Handling
pub mod Stops
pub mod Measure
pub mod Counts
pub mod Committee
