-- ===== src/Redact.antt =====
-- The redaction of logs: .github/scripts/redact.py, which wipes what gitleaks found.
pub mod Ranges
pub mod Secrets
pub mod Spans
pub mod Columns
pub mod Paths
pub mod Tree
