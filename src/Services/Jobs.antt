-- ===== src/Services/Jobs.antt =====
-- services/jobs: what the worker does with a claimed job.
pub mod Program
pub mod Steps
pub mod Staging
pub mod Execution
pub mod Validation
pub mod Pipeline
pub mod Ends
pub mod Confirmed
pub mod Results
pub mod Worker
