-- ===== src/Client.antt =====
-- A participant: the platform of reference-client/internal/platform, which keeps its records in step
-- with agrirouter's, and what it takes from agmasync.
pub mod Identity
pub mod Pairs
pub mod Database
pub mod Apply
pub mod Reconcile
pub mod Codec
pub mod Receive
pub mod Correct
pub mod Send
pub mod Load
pub mod Recognise
