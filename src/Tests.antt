-- ===== src/Tests.antt =====
-- Runs of the theorems at concrete inputs, with a concrete choice for the crates.
pub mod Streams
pub mod Toy
pub mod Packets
pub mod Tunnels
pub mod Tables
pub mod Sessions
pub mod Loops
pub mod Startups
