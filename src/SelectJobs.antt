-- ===== src/SelectJobs.antt =====
-- The selection of CI jobs for a pull request: .github/scripts/select-jobs.py.
pub mod Cost
pub mod Reason
pub mod Decide
pub mod Model
pub mod Jobs
pub mod Prompt
pub mod Comment
pub mod Run
mod Tests
