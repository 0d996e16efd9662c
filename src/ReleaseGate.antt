-- ===== src/ReleaseGate.antt =====
-- The release gate: .github/scripts/release_gate.py, which removes known secret values from the
-- files of a directory before they are published.
pub mod Base64
pub mod Variants
pub mod Censor
pub mod Archive
pub mod Directory
pub mod Inventory
pub mod Main
mod Tests
mod CommandTests
