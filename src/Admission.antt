-- ===== src/Admission.antt =====
-- routes/resume: how POST /resume/analyze admits a job.
pub mod QueueLength
pub mod Selection
pub mod Submission
