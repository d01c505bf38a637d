-- ===== src/Examples.antt =====
-- Concrete runs of the router of reference-client/internal/testrouter: what its operations do with a
-- small tenant, and an instance of every property at an input that meets its conditions.
pub mod Setup
pub mod Writes
pub mod Bindings
pub mod Contents
pub mod Exchange
pub mod Participant
pub mod Rounds
pub mod Pairs
