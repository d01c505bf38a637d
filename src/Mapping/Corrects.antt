-- ===== src/Mapping/Corrects.antt =====
-- What correct does: correct of reference-client/internal/testrouter/ssot.go.
pub mod Checks
pub mod Drops
pub mod Result
pub use Drops.{corrected}
