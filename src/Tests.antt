-- ===== src/Tests.antt =====
-- Runs of the modelled code on concrete systems, packets and addresses of the protocol.
pub mod Associations
pub mod Fixtures
pub mod Interleavings
pub mod Packets
pub mod Relays
pub mod Servers
pub mod Threads
